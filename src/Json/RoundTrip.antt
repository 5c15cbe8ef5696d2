-- ===== src/Json/RoundTrip.antt =====
-- Strings survive the writer and the reader: `str_at` undoes `put_escaped`, and no byte of a string
-- ends it early.
use Prim.Native.Nat.{◌/◌, ◌%◌}
use native.Mathlib.Numerals.{add-one}
use esp_soulcloud_client.Prelude.{
  ℕ, zero, suc, ◌+◌, ◌≤◌, ◌<◌, [], ◌∷◌, ◌++◌, ◌≡◌, refl, sym, ap, ◌∙◌, inl, inr, Bool, true, false,
  Option, none, some, Bytes, codes, ◌≢◌, ◌||◌, length, take, set, ltb, leb, ◌==◌, if◌then◌else◌,
  append_assoc, append-nil, length-append, length-set, Bool-cases, arith,
}
use esp_soulcloud_client.Prelude.Memory.{take-suc-set}
use esp_soulcloud_client.Json.Decimal.{hex_digit}
use esp_soulcloud_client.Json.Page.{escape_byte, escape}
use esp_soulcloud_client.Json.Unescape.{
  hex_value, hex_code, utf8, unicode_escape, escaped, next_unit, Sink, emit, unescape,
  simple_escape,
}

-- The first byte of an escape and what follows it.
hex_value-hex_digit : (n : ℕ) → n < 16 → hex_value (hex_digit n) ≡ some n
unfolding hex_value hex_digit
hex_value-hex_digit n h = ground arith

hex_value-zero : hex_value b'0' ≡ some 0
unfolding hex_value
hex_value-zero = refl

unicode_escape_low :
    (c : ℕ) (rest : Bytes)
    → c < 0x20
    → unicode_escape (b'0' ∷ b'0' ∷ hex_digit (c / 16) ∷ hex_digit (c % 16) ∷ rest)
      ≡ some (c ∷ [], rest)
unfolding unicode_escape hex_code utf8
unicode_escape_low c rest h = ground (
  arith,
  hex_value-zero,
  hex_value-hex_digit (c / 16) (omega arith),
  hex_value-hex_digit (c % 16) (omega arith),
)

abbrev pub first_unit : Bytes → Option (Bytes × Bytes)
first_unit [] = none
first_unit (c ∷ rest) = next_unit c rest

-- Reading the escape of one byte gives the byte back, and goes on behind it.
pub first_unit-escape_byte :
    (c : ℕ) (rest : Bytes) → first_unit (escape_byte c ++ rest) ≡ some (c ∷ [], rest)
unfolding escape_byte next_unit escaped simple_escape
first_unit-escape_byte c rest = ground (arith, unicode_escape_low c rest)

escape_byte-pos : (c : ℕ) → 0 < length (escape_byte c)
unfolding escape_byte
escape_byte-pos c = ground arith

unescape_step :
    (f cap : ℕ) (text bytes rest : Bytes) (s : Sink)
    → first_unit text ≡ some (bytes, rest)
    → (emit cap s bytes).0 ≡ true
    → unescape (suc f) cap text s ≡ unescape f cap rest (emit cap s bytes).1
unfolding unescape
unescape_step f size [] bytes rest s e h = cc
unescape_step f size (c ∷ text) bytes rest s e h =
    let e' : next_unit c text ≡ some (bytes, rest) = e in rw (e', unescape) (ground arith)

-- The sink after bytes that all fit.
abbrev pub written : Sink → Bytes → Sink
written s [] = s
written s (c ∷ cs) = written (record { out = set s.out s.out_len c; out_len = s.out_len + 1 }) cs

emit_one :
    (cap c : ℕ) (s : Sink) → s.out_len + 1 < cap → emit cap s (c ∷ []) ≡ (true, written s (c ∷ []))
unfolding emit
emit_one cap c s h = ground arith

pub unescape-escape :
    (str : Bytes) (f cap : ℕ) (s : Sink)
    → length (escape str) ≤ f
    → s.out_len + length str < cap
    → unescape f cap (escape str) s ≡ (true, written s str)
unfolding escape
unescape-escape [] zero cap s h lt = unfold unescape in refl
unescape-escape [] (suc f) cap s h lt = unfold unescape in refl
unescape-escape (c ∷ cs) zero cap s h lt =
    absurd (omega (arith, escape_byte-pos c, length-append (escape_byte c) (escape cs)))
unescape-escape (c ∷ cs) (suc f) cap s h lt =
    let one = emit_one cap c s (omega arith) in
    unescape_step f cap (escape_byte c ++ escape cs) (c ∷ []) (escape cs) s
      (first_unit-escape_byte c (escape cs)) (ap (λ r. r.0) one)
    ∙ ap (λ r. unescape f cap (escape cs) r.1) one
    ∙ unescape-escape cs f cap (written s (c ∷ []))
        (omega (arith, escape_byte-pos c, length-append (escape_byte c) (escape cs))) (omega arith)

-- Where the written bytes stand.
pub written-out :
    (str : Bytes) (s : Sink) (m : ℕ)
    → s.out_len + length str ≡ m
    → m ≤ length s.out
    → (take m (written s str).out ≡ take s.out_len s.out ++ str)
      × ((written s str).out_len ≡ m)
      × (length (written s str).out ≡ length s.out)
written-out [] s m e h =
    let e' : m ≡ s.out_len = omega arith in (rw e' (sym (append-nil _)), sym e', refl)
written-out (c ∷ cs) s m e h =
    let s' = written s (c ∷ []) in
    let size : length s'.out ≡ length s.out = length-set s.out s.out_len c in
    let later = written-out cs s' m (omega arith) (omega (arith, size)) in
    (
      later.0
          ∙ ap (λ t. t ++ cs) (rw add-one (take-suc-set s.out_len c s.out (omega arith)))
          ∙ append_assoc (take s.out_len s.out) (c ∷ []) cs,
      later.1,
      later.2 ∙ size,
    )

emit_full : (cap c : ℕ) (s : Sink) → cap ≤ s.out_len + 1 → emit cap s (c ∷ []) ≡ (false, s)
unfolding emit
emit_full cap c s h = ground arith

unescape_stop :
    (f cap : ℕ) (text bytes rest : Bytes) (s : Sink)
    → first_unit text ≡ some (bytes, rest)
    → (emit cap s bytes).0 ≡ false
    → (unescape (suc f) cap text s).0 ≡ false
unfolding unescape
unescape_stop f size [] bytes rest s e h = cc
unescape_stop f size (c ∷ text) bytes rest s e h =
    let e' : next_unit c text ≡ some (bytes, rest) = e in rw (e', unescape) (ground arith)

pub unescape-escape_long :
    (str : Bytes) (f cap : ℕ) (s : Sink)
    → length (escape str) ≤ f
    → s.out_len < cap
    → cap ≤ s.out_len + length str
    → (unescape f cap (escape str) s).0 ≡ false
unfolding escape
unescape-escape_long [] f size s h lt le = absurd (omega arith)
unescape-escape_long (c ∷ cs) zero size s h lt le =
    absurd (omega (arith, escape_byte-pos c, length-append (escape_byte c) (escape cs)))
unescape-escape_long (c ∷ cs) (suc f) size s h lt le =
    elim (Bool-cases (leb size (s.out_len + 1))) [
      | inl full ↦
          unescape_stop f size (escape_byte c ++ escape cs) (c ∷ []) (escape cs) s
            (first_unit-escape_byte c (escape cs))
            (ap (λ r. r.0) (emit_full size c s (ground arith)))
      | inr room ↦
          let one = emit_one size c s (ground arith) in
          ap (λ r. r.0)
            (unescape_step f size (escape_byte c ++ escape cs) (c ∷ []) (escape cs) s
                (first_unit-escape_byte c (escape cs)) (ap (λ r. r.0) one)
              ∙ ap (λ r. unescape f size (escape cs) r.1) one)
          ∙ unescape-escape_long cs f size (written s (c ∷ []))
              (omega (arith, escape_byte-pos c, length-append (escape_byte c) (escape cs)))
              (ground arith) (omega arith)
    ]

-- A reader of a JSON string behind its opening quote: what follows the closing quote, or `none`
-- where the string does not end, holds a control character or an escape that JSON does not have.
-- The flag is set behind a backslash.
abbrev pub escape_letters : Bytes
escape_letters = codes "\"\\/bfnrtu"

abbrev one_of : Bytes → ℕ → Bool
one_of [] c = false
one_of (x ∷ xs) c = c == x || one_of xs c

unfoldable pub string_end : Bool → Bytes → Option Bytes
string_end flag [] = none
string_end true (c ∷ cs) =
    let next = string_end false cs in if one_of escape_letters c then next else none
string_end false (c ∷ cs) =
    let next = string_end false cs in
    let behind = string_end true cs in
    if c == b'"' then some cs else if c == b'\\' then behind else if ltb c 0x20 then none else next

hex_digit-range :
    (n : ℕ) → n < 16 → (b'0' ≤ hex_digit n) × (hex_digit n ≤ b'f') × (hex_digit n ≢ b'\\')
unfolding hex_digit
hex_digit-range n h = ground arith

string_end-escape_byte :
    (c : ℕ) (rest after : Bytes)
    → string_end false rest ≡ some after
    → string_end false (escape_byte c ++ rest) ≡ some after
unfolding string_end escape_byte
string_end-escape_byte c rest after h =
    ground (arith, hex_digit-range (c / 16), hex_digit-range (c % 16))

-- For every string: behind an opening quote, the text that `put_escaped` writes for it is read by
-- a reader of JSON strings up to the closing quote that `put_escaped` writes, and no further.
pub string_end-escape :
    (str rest : Bytes) → string_end false (escape str ++ b'"' ∷ rest) ≡ some rest
unfolding string_end escape
string_end-escape [] rest = refl
string_end-escape (c ∷ cs) rest =
    rw (append_assoc (escape_byte c) (escape cs) (b'"' ∷ rest))
      (string_end-escape_byte c (escape cs ++ b'"' ∷ rest) rest (string_end-escape cs rest))
