-- ===== src/Json/Numbers.antt =====
-- Whole numbers survive the writer and the reader, and their text fits the buffers it is put in.
use native.Mathlib.Nat.{pow-suc}
use esp_soulcloud_client.Prelude.{
  ℕ, zero, suc, ◌+◌, ◌/◌, ◌%◌, ◌^◌, ◌≤◌, ◌<◌, ℤ, pos, negsuc, [], ◌∷◌, ◌≡◌, refl, sym, ap, ◌∙◌, inl,
  inr, ◌⊎◌, Bool, true, false, some, Bytes, length, c_string, arith,
}
use esp_soulcloud_client.Json.Decimal.{digits_onto, decimal, signed_decimal}
use esp_soulcloud_client.Json.Strtoll.{digits, unsigned_part, strtoll, signed, int64_of}

digits_onto_small :
    (f n : ℕ) (rest : Bytes) → n < 10 → digits_onto (suc f) n rest ≡ (b'0' + n) ∷ rest
unfolding digits_onto
digits_onto_small f n rest h = ground arith

digits_onto_large :
    (f n : ℕ) (rest : Bytes)
    → 10 ≤ n
    → digits_onto (suc f) n rest ≡ digits_onto f (n / 10) ((b'0' + n % 10) ∷ rest)
unfolding digits_onto
digits_onto_large f n rest h = ground arith

small_or_large : (n : ℕ) → (n < 10) ⊎ (10 ≤ n)
small_or_large n = omega arith

digits-digits_onto :
    (f n : ℕ) (rest : Bytes) → n < f → digits 0 (digits_onto f n rest) ≡ digits n rest
digits-digits_onto zero n rest h = absurd (omega arith)
digits-digits_onto (suc f) n rest h = elim (small_or_large n) [
  | inl small ↦ rw (digits_onto_small f n rest small) (unfold digits in ground arith)
  | inr large ↦ rw (digits_onto_large f n rest large) (
      digits-digits_onto f (n / 10) ((b'0' + n % 10) ∷ rest) (ground arith)
      ∙ unfold digits in ground arith)
]

first_digit :
    (f n : ℕ) (rest : Bytes)
    → n < f
    → (c : ℕ) × (cs : Bytes) × (digits_onto f n rest ≡ c ∷ cs) × (b'0' ≤ c) × (c ≤ b'9')
first_digit zero n rest h = absurd (omega arith)
first_digit (suc f) n rest h = elim (small_or_large n) [
  | inl small ↦
      rw (digits_onto_small f n rest small) (b'0' + n, rest, refl, omega arith, ground arith)
  | inr large ↦
      rw (digits_onto_large f n rest large)
        (first_digit f (n / 10) ((b'0' + n % 10) ∷ rest) (ground arith))
]

c_string-digits_onto :
    (f n : ℕ) (rest : Bytes)
    → c_string rest ≡ rest
    → c_string (digits_onto f n rest) ≡ digits_onto f n rest
unfolding digits_onto
c_string-digits_onto zero n rest h = h
c_string-digits_onto (suc f) n rest h = elim (small_or_large n) [
  | inl small ↦ rw (digits_onto_small f n rest small) (ground arith)
  | inr large ↦
      rw (digits_onto_large f n rest large)
        (c_string-digits_onto f (n / 10) ((b'0' + n % 10) ∷ rest) (ground arith))
]

length-digits_onto :
    (k f n : ℕ) (rest : Bytes)
    → n < 10 ^ suc k
    → length (digits_onto f n rest) ≤ suc k + length rest
unfolding digits_onto
length-digits_onto k zero n rest h = omega arith
length-digits_onto zero (suc f) n rest h =
    let small : n < 10 = omega (arith, h) in rw (digits_onto_small f n rest small) (omega arith)
length-digits_onto (suc k) (suc f) n rest h = elim (small_or_large n) [
  | inl small ↦ rw (digits_onto_small f n rest small) (omega arith)
  | inr large ↦ rw (digits_onto_large f n rest large) (
      omega (
        arith,
        length-digits_onto k f (n / 10) ((b'0' + n % 10) ∷ rest)
            (omega (arith, pow-suc 10 (suc k))),
      ))
]

decimal_digits : (n : ℕ) → (c : ℕ) × (cs : Bytes) × (decimal n ≡ c ∷ cs) × (b'0' ≤ c) × (c ≤ b'9')
unfolding decimal
decimal_digits n = first_digit (suc n) n [] (omega arith)

digits-decimal : (n : ℕ) → digits 0 (decimal n) ≡ (n, [])
unfolding decimal
digits-decimal n = digits-digits_onto (suc n) n [] (omega arith) ∙ unfold digits in refl

unsigned_part-cons :
    (negative : Bool) (c : ℕ) (cs : Bytes) (n : ℕ)
    → b'0' ≤ c
    → c ≤ b'9'
    → digits 0 (c ∷ cs) ≡ (n, [])
    → unsigned_part negative (c ∷ cs) ≡ some (signed negative n, [])
unfolding unsigned_part
unsigned_part-cons negative c cs n lo hi e = ground arith

unsigned_part-decimal :
    (negative : Bool) (n : ℕ) → unsigned_part negative (decimal n) ≡ some (signed negative n, [])
unsigned_part-decimal negative n =
    let (c, cs, e, lo, hi) = decimal_digits n in
    rw e (unsigned_part-cons negative c cs n lo hi (sym (ap (digits 0) e) ∙ digits-decimal n))

strtoll_digit :
    (c : ℕ) (cs : Bytes) → b'0' ≤ c → c ≤ b'9' → strtoll (c ∷ cs) ≡ unsigned_part false (c ∷ cs)
unfolding strtoll
strtoll_digit c cs lo hi = ground arith

strtoll_minus : (cs : Bytes) → strtoll (b'-' ∷ cs) ≡ unsigned_part true cs
unfolding strtoll
strtoll_minus cs = refl

signed_decimal-pos : (n : ℕ) → signed_decimal (pos n) ≡ decimal n
unfolding signed_decimal
signed_decimal-pos n = refl

signed_decimal-negsuc : (n : ℕ) → signed_decimal (negsuc n) ≡ b'-' ∷ decimal (suc n)
unfolding signed_decimal
signed_decimal-negsuc n = refl

strtoll-decimal : (n : ℕ) → strtoll (decimal n) ≡ some (pos n, [])
strtoll-decimal n =
    let (c, cs, e, lo, hi) = decimal_digits n in
    rw e (strtoll_digit c cs lo hi)
    ∙ sym (ap (unsigned_part false) e)
    ∙ unsigned_part-decimal false n

pub strtoll-signed_decimal : (z : ℤ) → strtoll (signed_decimal z) ≡ some (z, [])
strtoll-signed_decimal (pos n) = rw (signed_decimal-pos n) (strtoll-decimal n)
strtoll-signed_decimal (negsuc n) =
    rw (signed_decimal-negsuc n)
      (strtoll_minus (decimal (suc n)) ∙ unsigned_part-decimal true (suc n))

pub c_string-signed_decimal : (z : ℤ) → c_string (signed_decimal z) ≡ signed_decimal z
unfolding signed_decimal decimal
c_string-signed_decimal (pos n) = c_string-digits_onto (suc n) n [] refl
c_string-signed_decimal (negsuc n) =
    ap (◌∷◌ b'-') (c_string-digits_onto (suc (suc n)) (suc n) [] refl)

-- The values of an `int64_t`.
abbrev pub IsInt64 : ℤ → Type 0
IsInt64 (pos n) = n < 2 ^ 63
IsInt64 (negsuc n) = n < 2 ^ 63

-- `add_int` and `add_uint`: every `int64_t` and every `uint64_t` is written in at most 20
-- characters, so that the text with its NUL fits the 24 bytes of `text`.
pub length-signed_decimal : (z : ℤ) → IsInt64 z → length (signed_decimal z) ≤ 20
unfolding signed_decimal decimal
length-signed_decimal (pos n) h = omega (arith, length-digits_onto 18 (suc n) n [] (omega arith))
length-signed_decimal (negsuc n) h =
    omega (arith, length-digits_onto 18 (suc (suc n)) (suc n) [] (omega arith))

pub length-decimal : (n : ℕ) → n < 2 ^ 64 → length (decimal n) ≤ 20
unfolding decimal
length-decimal n h = length-digits_onto 19 (suc n) n [] (omega arith)

pub signed_decimal-ne-nil : (z : ℤ) → 0 < length (signed_decimal z)
signed_decimal-ne-nil (pos n) =
    let (c, cs, e, lo, hi) = decimal_digits n in rw (signed_decimal-pos n, e) (omega arith)
signed_decimal-ne-nil (negsuc n) = rw (signed_decimal-negsuc n) (omega arith)

pub int64_of-IsInt64 : (z : ℤ) → IsInt64 z → int64_of z ≡ some z
unfolding int64_of
int64_of-IsInt64 (pos n) h = ground arith
int64_of-IsInt64 (negsuc n) h = ground arith
