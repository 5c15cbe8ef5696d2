-- ===== src/Codec/Decode/Refill.antt =====
-- `str_at` into a buffer that is used again: what it gives does not depend on what the buffer held.
use esp_soulcloud_client.Prelude.{
  ℕ, zero, suc, ◌+◌, ◌≤◌, ◌<◌, ◌≡◌, refl, sym, ap, subst, ◌∙◌, [], ◌∷◌, ◌++◌, Bool, true, false,
  not, ◌||◌, Option, none, some, Bytes, length, length-set, take, set, c_string, ltb, leb, ◌==◌,
  if◌then◌else◌, inl, inr, Bool-cases, Option-cases, arith, if_cases,
}
use esp_soulcloud_client.Prelude.Memory.{take-suc-set}
use esp_soulcloud_client.Json.Reader.{Reader, find, read_text, str_at, get_str, token_at}
use esp_soulcloud_client.Json.Token.{is_string_type, slice}
use esp_soulcloud_client.Json.Unescape.{Sink, emit, unescape, next_unit}

abbrev sink : Bytes → ℕ → Sink
sink out n = record { out = out; out_len = n }

-- Two buffers of `cap` bytes that hold the same `n` bytes so far, with room behind them.
record Alike (cap n : ℕ) (a b : Bytes) : Type 0 where
  same_text : take n a ≡ take n b
  left_size : length a ≡ cap
  right_size : length b ≡ cap
  room : n < cap

-- What two runs gave.
record BothAlike (cap : ℕ) (x y : Bool × Sink) : Type 0 where
  same_fits : x.0 ≡ y.0
  same_len : x.1.out_len ≡ y.1.out_len
  alike : Alike cap x.1.out_len x.1.out y.1.out

if-BothAlike :
    (size : ℕ) (c d : Bool) {x y x' y' : Bool × Sink}
    → c ≡ d
    → BothAlike size x y
    → (c ≡ false → BothAlike size x' y')
    → BothAlike size (if c then x else x') (if d then y else y')
if-BothAlike size true true e h k = h
if-BothAlike size false false e h k = k refl
if-BothAlike size true false e h k = absurd (ground (arith, e))
if-BothAlike size false true e h k = absurd (ground (arith, e))

take-suc-set-Alike :
    (n c size : ℕ) (a b : Bytes)
    → Alike size n a b
    → take (suc n) (set a n c) ≡ take (suc n) (set b n c)
take-suc-set-Alike n c size a b h =
    take-suc-set n c a (omega (arith, h.room, h.left_size))
    ∙ ap (λ zs. zs ++ c ∷ []) h.same_text
    ∙ sym (take-suc-set n c b (omega (arith, h.room, h.right_size)))

emit-BothAlike :
    (cs : Bytes) (size n : ℕ) (a b : Bytes)
    → Alike size n a b
    → BothAlike size (emit size (sink a n) cs) (emit size (sink b n) cs)
unfolding emit
emit-BothAlike [] size n a b h = record { same_fits = refl; same_len = refl; alike = h }
emit-BothAlike (c ∷ cs) size n a b h = elim (Bool-cases (leb size (n + 1))) [
  | inl long ↦ rw long (record { same_fits = refl; same_len = refl; alike = h })
  | inr fits ↦ rw fits (
      emit-BothAlike cs size (n + 1) (set a n c) (set b n c) (record {
        same_text =
            let one : n + 1 ≡ suc n = omega arith in rw one (take-suc-set-Alike n c size a b h);
        left_size = length-set a n c ∙ h.left_size;
        right_size = length-set b n c ∙ h.right_size;
        room = ground (arith, fits);
      }))
]

unescape_bad :
    (fuel size c : ℕ) (text : Bytes) (s : Sink)
    → next_unit c text ≡ none
    → unescape (suc fuel) size (c ∷ text) s ≡ (false, s)
unfolding unescape
unescape_bad fuel size c text s e = rw (e, unescape) refl

unescape_next :
    (fuel size c : ℕ) (text bytes rest : Bytes) (s : Sink)
    → next_unit c text ≡ some (bytes, rest)
    → unescape (suc fuel) size (c ∷ text) s ≡ (
        if (emit size s bytes).0
        then unescape fuel size rest (emit size s bytes).1
        else (false, (emit size s bytes).1))
unfolding unescape
unescape_next fuel size c text bytes rest s e = rw (e, unescape) refl

unescape-BothAlike :
    (fuel size n : ℕ) (text a b : Bytes)
    → Alike size n a b
    → BothAlike size (unescape fuel size text (sink a n)) (unescape fuel size text (sink b n))
unescape-BothAlike fuel size n [] a b h =
    unfold unescape in record { same_fits = refl; same_len = refl; alike = h }
unescape-BothAlike zero size n (c ∷ text) a b h =
    unfold unescape in record { same_fits = refl; same_len = refl; alike = h }
unescape-BothAlike (suc fuel) size n (c ∷ text) a b h = elim (Option-cases (next_unit c text)) [
  | inl bad ↦
      rw
        (unescape_bad fuel size c text (sink a n) bad, unescape_bad fuel size c text (sink b n) bad)
        (record { same_fits = refl; same_len = refl; alike = h })
  | inr ((bytes, rest), good) ↦
      (let e = emit-BothAlike bytes size n a b h in
        let x = emit size (sink a n) bytes in
        let y = emit size (sink b n) bytes in
        let later = unescape-BothAlike fuel size x.1.out_len rest x.1.out y.1.out e.alike in
        let later' =
          subst
            (λ k.
              BothAlike size (unescape fuel size rest x.1)
                (unescape fuel size rest (sink y.1.out k)))
            e.same_len later in
        rw
          (
            unescape_next fuel size c text bytes rest (sink a n) good,
            unescape_next fuel size c text bytes rest (sink b n) good,
          )
          (if-BothAlike size x.0 y.0 e.same_fits later'
            (λ stop. record { same_fits = refl; same_len = e.same_len; alike = e.alike })))
]

-- Where the first `n` bytes agree and a NUL follows, so do the strings.
c_string-set :
    (n size : ℕ) (a b : Bytes) → Alike size n a b → c_string (set a n 0) ≡ c_string (set b n 0)
c_string-set zero size [] b h = absurd (omega (arith, h.left_size, h.room))
c_string-set zero size (x ∷ a) [] h = absurd (omega (arith, h.right_size, h.room))
c_string-set zero size (x ∷ a) (y ∷ b) h = refl
c_string-set (suc n) size [] b h = absurd (omega (arith, h.left_size, h.room))
c_string-set (suc n) size (x ∷ a) [] h = absurd (omega (arith, h.right_size, h.room))
c_string-set (suc n) zero (x ∷ a) (y ∷ b) h = absurd (omega (arith, h.room))
c_string-set (suc n) (suc size) (x ∷ a) (y ∷ b) h =
    let same : x ≡ y = cc in
    let behind : take n a ≡ take n b = cc in
    let later = c_string-set n size a b (record {
      same_text = behind;
      left_size = omega (arith, h.left_size);
      right_size = omega (arith, h.right_size);
      room = omega (arith, h.room);
    }) in
    rw (same, later) refl

length-c_string-set :
    (n size : ℕ) (a b : Bytes) → Alike size n a b → length (c_string (set a n 0)) < size
length-c_string-set n size a b h =
    let k = length-c_string_lem n a in omega (arith, k, h.room, h.left_size)
  where
    length-c_string_lem : (n : ℕ) (a : Bytes) → (length (c_string (set a n 0)) ≤ n)
    length-c_string_lem n [] = omega arith
    length-c_string_lem zero (x ∷ a) = omega arith
    length-c_string_lem (suc n) (x ∷ a) =
        let rest = length-c_string_lem n a in
        if_cases (λ (s : Bytes). length s ≤ suc n) (x == 0) (λ _. omega arith)
          (λ _. omega (arith, rest))

-- A buffer of `size` bytes, and what `str_at` says of it.
pub record SameRead (size : ℕ) (x y : Bool × Bytes) : Type 0 where
  pub same_result : x.0 ≡ y.0
  pub same_string : x.0 ≡ true → c_string x.1 ≡ c_string y.1
  pub fits : x.0 ≡ true → length (c_string x.1) < size
  pub left_size : length x.1 ≡ size
  pub right_size : length y.1 ≡ size

if-SameRead :
    (size : ℕ) (c d : Bool) {x y x' y' : Bool × Bytes}
    → c ≡ d
    → SameRead size x y
    → SameRead size x' y'
    → SameRead size (if c then x else x') (if d then y else y')
if-SameRead size true true e h k = h
if-SameRead size false false e h k = k
if-SameRead size true false e h k = absurd (ground (arith, e))
if-SameRead size false true e h k = absurd (ground (arith, e))

unread :
    (size : ℕ) (a b : Bytes)
    → length a ≡ size
    → length b ≡ size
    → SameRead size (false, a) (false, b)
unread size a b la lb = record {
  same_result = refl;
  same_string = λ k. absurd (ground (arith, k));
  fits = λ k. absurd (ground (arith, k));
  left_size = la;
  right_size = lb;
}

read_text-SameRead :
    (text : Bytes) (size : ℕ) (a b : Bytes)
    → length a ≡ size
    → length b ≡ size
    → 0 < size
    → SameRead size (read_text text size a) (read_text text size b)
unfolding read_text
read_text-SameRead text size a b la lb h =
    let u =
      unescape-BothAlike (length text) size 0 text a b
        (record { same_text = refl; left_size = la; right_size = lb; room = h }) in
    let x = unescape (length text) size text (sink a 0) in
    let y = unescape (length text) size text (sink b 0) in
    let s =
      c_string-set x.1.out_len size x.1.out y.1.out u.alike
      ∙ ap (λ k. c_string (set y.1.out k 0)) u.same_len in
    let left = length-set x.1.out x.1.out_len 0 in
    let right = length-set y.1.out y.1.out_len 0 in
    if-SameRead size x.0 y.0 u.same_fits
      (record {
        same_result = refl;
        same_string = λ _. s;
        fits = λ _. length-c_string-set x.1.out_len size x.1.out y.1.out u.alike;
        left_size = left ∙ u.alike.left_size;
        right_size = right ∙ u.alike.right_size;
      })
      (record {
        same_result = refl;
        same_string = λ k. absurd (ground (arith, k));
        fits = λ k. absurd (ground (arith, k));
        left_size = u.alike.left_size;
        right_size = u.alike.right_size;
      })

-- For two buffers of `size` bytes, one at least, whatever they hold: `str_at` gives the same result, and the
-- same string where it succeeds.
pub str_at-SameRead :
    (r : Reader) (tok : Option ℕ) (size : ℕ) (a b : Bytes)
    → length a ≡ size
    → length b ≡ size
    → 0 < size
    → SameRead size (str_at r tok size a) (str_at r tok size b)
unfolding str_at
str_at-SameRead r tok size a b la lb h = elim (Option-cases (token_at r tok)) [
  | inl missing ↦ rw (missing, str_at) (unread size a b la lb)
  | inr (t, found) ↦
      rw (found, str_at)
        (if-SameRead size (not (is_string_type t.type) || ltb size 1)
          (not (is_string_type t.type) || ltb size 1) refl (unread size a b la lb)
          (read_text-SameRead (slice r.json t.start t.stop) size a b la lb h))
]

-- The buffer of `get_str` keeps its size.
pub get_str-size :
    (r : Reader) (object : Option ℕ) (key : Bytes) (size : ℕ) (out : Bytes)
    → length out ≡ size
    → 0 < size
    → length (get_str r object key size out).1 ≡ size
unfolding get_str
get_str-size r object key size out e h =
    (str_at-SameRead r (find r object key) size out out e e h).left_size

-- A string that `get_str` gives fits the buffer with its NUL.
pub get_str_fits :
    (r : Reader) (object : Option ℕ) (key : Bytes) (size : ℕ) (out : Bytes)
    → length out ≡ size
    → 0 < size
    → (get_str r object key size out).0 ≡ true
    → length (c_string (get_str r object key size out).1) < size
unfolding get_str
get_str_fits r object key size out e h ok =
    (str_at-SameRead r (find r object key) size out out e e h).fits ok
