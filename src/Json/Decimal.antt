-- ===== src/Json/Decimal.antt =====
-- Decimal and hexadecimal text: `snprintf` with PRId64 and PRIu64, and the HEX tables of sc_json.cpp.
use esp_soulcloud_client.Prelude.{
  ℕ, zero, suc, ◌+◌, ◌/◌, ◌%◌, ℤ, pos, negsuc, [], ◌∷◌, ◌≡◌, refl, true, false, Bytes, codes,
  get_or, ltb,
}

-- The digits of `n` in front of `rest`; `fuel` is more than the number of digits.
unfoldable pub digits_onto : ℕ → ℕ → Bytes → Bytes
digits_onto zero n rest = rest
digits_onto (suc fuel) n rest = elim (ltb n 10) [
  | true ↦ (b'0' + n) ∷ rest
  | false ↦ digits_onto fuel (n / 10) ((b'0' + n % 10) ∷ rest)
]

-- `%llu`. A number has at most as many digits as one more than its value.
unfoldable pub decimal : ℕ → Bytes
unfolding digits_onto
decimal n = digits_onto (suc n) n []

-- `%lld`.
unfoldable pub signed_decimal : ℤ → Bytes
unfolding decimal
signed_decimal (pos n) = decimal n
signed_decimal (negsuc n) = b'-' ∷ decimal (suc n)

-- `HEX[n]`, for a nibble `n`.
abbrev pub hex_table : Bytes
hex_table = codes "0123456789abcdef"

unfoldable pub hex_digit : ℕ → ℕ
hex_digit n = get_or hex_table n 0

decimal_runs : decimal 18446744073709551615 ≡ codes "18446744073709551615"
unfolding decimal
decimal_runs = refl
