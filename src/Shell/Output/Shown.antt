-- ===== src/Shell/Output/Shown.antt =====
-- What `sc_shell_out` shows of the text that is written to it.
use esp_soulcloud_client.Prelude.{
  ℕ, zero, suc, ◌+◌, ◌-◌, ◌≤◌, ◌<◌, List, [], ◌∷◌, ◌++◌, ◌≡◌, refl, sym, ap, ◌∙◌, subst, ◌⊎◌, inl,
  inr, true, false, some, Bytes, length, take, set, get_or, copy_at, leb, ltb, ◌==◌, Bool-cases,
  length-append, length-set, append-nil, append_assoc, arith,
}
use esp_soulcloud_client.Prelude.Memory.{take-set-copy_at, length-copy_at, get_or-set_self}
use esp_soulcloud_client.Shell.Output.{ShellOut, open_out, write, printf}

take_all : (n : ℕ) (xs : Bytes) → length xs ≤ n → take n xs ≡ xs
take_all zero [] h = refl
take_all zero (x ∷ xs) h = absurd (ground (arith, h))
take_all (suc n) [] h = refl
take_all (suc n) (x ∷ xs) h = ap (◌∷◌ x) (take_all n xs (omega arith))

take-nil : (n : ℕ) → take {A = ℕ} n [] ≡ []
take-nil zero = refl
take-nil (suc n) = refl

take-append_le : (n : ℕ) (xs ys : Bytes) → n ≤ length xs → take n (xs ++ ys) ≡ take n xs
take-append_le zero xs ys h = refl
take-append_le (suc n) [] ys h = absurd (omega arith)
take-append_le (suc n) (x ∷ xs) ys h = ap (◌∷◌ x) (take-append_le n xs ys (omega arith))

take-append_ge : (n : ℕ) (xs ys : Bytes) → take (length xs + n) (xs ++ ys) ≡ xs ++ take n ys
take-append_ge n [] ys = let e : 0 + n ≡ n = omega arith in ap (λ k. take k ys) e
take-append_ge n (x ∷ xs) ys =
    let e : suc (length xs) + n ≡ suc (length xs + n) = omega arith in
    ap (λ k. take k (x ∷ (xs ++ ys))) e ∙ ap (◌∷◌ x) (take-append_ge n xs ys)

length-take_min : (n : ℕ) (xs : Bytes) → n ≤ length xs → length (take n xs) ≡ n
length-take_min zero xs h = refl
length-take_min (suc n) [] h = absurd (omega arith)
length-take_min (suc n) (x ∷ xs) h = ap suc (length-take_min n xs (omega arith))

-- The buffer shows `printed` as far as it has room, ends it with a NUL and knows whether that was all.
pub record Prints (out : ShellOut) (printed : Bytes) : Type 0 where
  pub some_room : 0 < out.size
  pub size_is : length out.buf ≡ out.size
  pub inside : out.pos < out.size
  pub text_is : take out.pos out.buf ≡ take (out.size - 1) printed
  pub terminated : get_or out.buf out.pos 1 ≡ 0
  pub rest :
      (out.full ≡ false) × (out.pos ≡ length printed)
      ⊎ (out.full ≡ true) × (out.pos ≡ out.size - 1) × (out.size ≤ length printed)

open_out-Prints :
    (buf : Bytes) (size : ℕ) → length buf ≡ size → 0 < size → Prints (open_out buf size) []
unfolding open_out
open_out-Prints buf size e lt =
    let room : ltb 0 size ≡ true = ground arith in
    rw room (record {
      some_room = lt;
      size_is = length-set buf 0 0 ∙ e;
      inside = lt;
      text_is = sym (take-nil (size - 1));
      terminated = get_or-set_self buf 0 0 1 (omega (arith, e));
      rest = inl (refl, refl);
    })

write_full : (out : ShellOut) (s : Bytes) → 0 < out.size → out.full ≡ true → write out s ≡ out
unfolding write
write_full out s lt f = ground (arith, f)

printf_full :
    (out : ShellOut) (text : Bytes) → 0 < out.size → out.full ≡ true → printf out (some text) ≡ out
unfolding printf
printf_full out text lt f = ground (arith, f)

write_fits :
    (out : ShellOut) (s : Bytes)
    → 0 < out.size
    → out.full ≡ false
    → length s ≤ out.size - 1 - out.pos
    → write out s ≡ record out {
      buf = set (copy_at out.buf out.pos s) (out.pos + length s) 0;
      pos = out.pos + length s;
    }
unfolding write
write_fits out s lt f le =
    let some_size : (out.size == 0) ≡ false = ground arith in
    let fits : ltb (out.size - 1 - out.pos) (length s) ≡ false = ground arith in
    rw (some_size, f, fits) refl

write_cut :
    (out : ShellOut) (s : Bytes)
    → 0 < out.size
    → out.full ≡ false
    → out.size - 1 - out.pos < length s
    → let room = out.size - 1 - out.pos in
      write out s ≡ record out {
        buf = set (copy_at out.buf out.pos (take room s)) (out.pos + room) 0;
        pos = out.pos + room;
        full = true;
      }
unfolding write
write_cut out s lt f le =
    let some_size : (out.size == 0) ≡ false = ground arith in
    let cut : ltb (out.size - 1 - out.pos) (length s) ≡ true = ground arith in
    rw (some_size, f, cut) refl

write-Prints_fits :
    (out : ShellOut) (all s : Bytes)
    → Prints out all
    → out.full ≡ false
    → out.pos ≡ length all
    → length s ≤ out.size - 1 - out.pos
    → Prints (write out s) (all ++ s)
write-Prints_fits out all s p open_yet here fits =
    let n = length-append all s in
    let inside = p.inside in
    let text : take out.pos out.buf ≡ all =
      p.text_is ∙ take_all (out.size - 1) all (omega (arith, here, inside)) in
    rw (write_fits out s p.some_room open_yet fits) (record {
      some_room = p.some_room;
      size_is =
          length-set (copy_at out.buf out.pos s) (out.pos + length s) 0
          ∙ length-copy_at s out.buf out.pos
          ∙ p.size_is;
      inside = omega (arith, inside);
      text_is =
          take-set-copy_at s out.buf out.pos (out.pos + length s) refl
            (omega (arith, inside, p.size_is))
          ∙ ap (λ t. t ++ s) text
          ∙ sym (take_all (out.size - 1) (all ++ s) (omega (arith, n, here, inside)));
      terminated =
          get_or-set_self (copy_at out.buf out.pos s) (out.pos + length s) 0 1
            (omega (arith, inside, p.size_is, length-copy_at s out.buf out.pos));
      rest = inl (open_yet, omega (arith, n, here));
    })

write-Prints_cut :
    (out : ShellOut) (all s : Bytes)
    → Prints out all
    → out.full ≡ false
    → out.pos ≡ length all
    → out.size - 1 - out.pos < length s
    → Prints (write out s) (all ++ s)
write-Prints_cut out all s p open_yet here long =
    let n = length-append all s in
    let inside = p.inside in
    let room = out.size - 1 - out.pos in
    let text : take out.pos out.buf ≡ all =
      p.text_is ∙ take_all (out.size - 1) all (omega (arith, here, inside)) in
    let r = length-take_min room s (omega arith) in
    let whole : out.size - 1 ≡ length all + room = omega (arith, here, inside) in
    rw (write_cut out s p.some_room open_yet long) (record {
      some_room = p.some_room;
      size_is =
          length-set (copy_at out.buf out.pos (take room s)) (out.pos + room) 0
          ∙ length-copy_at (take room s) out.buf out.pos
          ∙ p.size_is;
      inside = omega (arith, inside);
      text_is =
          take-set-copy_at (take room s) out.buf out.pos (out.pos + room) (omega (arith, r))
            (omega (arith, inside, p.size_is))
          ∙ ap (λ t. t ++ take room s) text
          ∙ sym (ap (λ k. take k (all ++ s)) whole ∙ take-append_ge room all s);
      terminated =
          get_or-set_self (copy_at out.buf out.pos (take room s)) (out.pos + room) 0 1
            (omega (arith, inside, p.size_is, length-copy_at (take room s) out.buf out.pos));
      rest = inr (refl, omega (arith, inside), omega (arith, n, here));
    })

-- What is written behind `all` is shown as far as there is room.
pub write-Prints :
    (out : ShellOut) (all s : Bytes) → Prints out all → Prints (write out s) (all ++ s)
write-Prints out all s p = elim p.rest [
  | inl (open_yet, here) ↦ elim (Bool-cases (leb (length s) (out.size - 1 - out.pos))) [
    | inl fits ↦ write-Prints_fits out all s p open_yet here (ground (arith, fits))
    | inr long ↦ write-Prints_cut out all s p open_yet here (ground (arith, long))
  ]
  | inr (f, here, most) ↦
      (let n = length-append all s in
        rw (write_full out s p.some_room f) (record {
          some_room = p.some_room;
          size_is = p.size_is;
          inside = p.inside;
          text_is = p.text_is ∙ sym (take-append_le (out.size - 1) all s (omega (arith, most)));
          terminated = p.terminated;
          rest = inr (f, here, omega (arith, n, most));
        }))
]

unfoldable pub write_all : ShellOut → List Bytes → ShellOut
write_all out [] = out
write_all out (s ∷ ss) = write_all (write out s) ss

abbrev pub joined : List Bytes → Bytes
joined [] = []
joined (s ∷ ss) = s ++ joined ss

write_all-Prints :
    (ss : List Bytes) (out : ShellOut) (all : Bytes)
    → Prints out all
    → Prints (write_all out ss) (all ++ joined ss)
unfolding write_all
write_all-Prints [] out all p = subst (λ t. Prints out t) (sym (append-nil all)) p
write_all-Prints (s ∷ ss) out all p =
    subst (λ t. Prints (write_all (write out s) ss) t) (append_assoc all s (joined ss))
      (write_all-Prints ss (write out s) (all ++ s) (write-Prints out all s p))

-- Whatever a command writes, in whatever pieces: the buffer stays in its size, shows the text as far
-- as there is room, ends it with a NUL, and is marked full where the text has no room, and only there.
pub write_all-shown :
    (buf : Bytes) (size : ℕ) (ss : List Bytes)
    → length buf ≡ size
    → 0 < size
    → Prints (write_all (open_out buf size) ss) (joined ss)
write_all-shown buf size ss e lt =
    write_all-Prints ss (open_out buf size) [] (open_out-Prints buf size e lt)

printf_fits :
    (out : ShellOut) (text : Bytes)
    → out.pos < out.size
    → out.full ≡ false
    → length text ≤ out.size - 1 - out.pos
    → printf out (some text) ≡ record out {
      buf = set (copy_at out.buf out.pos text) (out.pos + length text) 0;
      pos = out.pos + length text;
    }
unfolding printf
printf_fits out text inside f fits =
    let some_size : (out.size == 0) ≡ false = ground arith in
    let shown = take_all (out.size - out.pos - 1) text (omega arith) in
    let more : leb (out.size - out.pos) (length text) ≡ false = ground arith in
    rw (some_size, f, more, shown) refl

printf_cut :
    (out : ShellOut) (text : Bytes)
    → out.pos < out.size
    → out.full ≡ false
    → out.size - 1 - out.pos < length text
    → let room = out.size - 1 - out.pos in
      printf out (some text) ≡ record out {
        buf = set (copy_at out.buf out.pos (take room text)) (out.pos + room) 0;
        pos = out.size - 1;
        full = true;
      }
unfolding printf
printf_cut out text inside f long =
    let some_size : (out.size == 0) ≡ false = ground arith in
    let same : out.size - out.pos - 1 ≡ out.size - 1 - out.pos = omega arith in
    let r = length-take_min (out.size - 1 - out.pos) text (omega arith) in
    let cut : leb (out.size - out.pos) (length text) ≡ true = ground arith in
    rw (some_size, f, cut, same, r) refl

-- Where the position is in the buffer, `printf` leaves what `write` leaves for the formatted text.
pub printf-write :
    (out : ShellOut) (text : Bytes) → out.pos < out.size → printf out (some text) ≡ write out text
printf-write out text inside = elim (Bool-cases out.full) [
  | inl f ↦ printf_full out text (omega arith) f ∙ sym (write_full out text (omega arith) f)
  | inr f ↦ elim (Bool-cases (leb (length text) (out.size - 1 - out.pos))) [
    | inl fits ↦
        (let le : length text ≤ out.size - 1 - out.pos = ground (arith, fits) in
          printf_fits out text inside f le ∙ sym (write_fits out text (omega arith) f le))
    | inr long ↦
        (let room = out.size - 1 - out.pos in
          let lt : room < length text = ground (arith, long) in
          let last : out.size - 1 ≡ out.pos + room = omega arith in
          printf_cut out text inside f lt
          ∙ ap
              (λ k. record out {
                buf = set (copy_at out.buf out.pos (take room text)) (out.pos + room) 0;
                pos = k;
                full = true;
              })
              last
          ∙ sym (write_cut out text (omega arith) f lt))
  ]
]
