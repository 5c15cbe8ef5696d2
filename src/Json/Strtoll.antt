-- ===== src/Json/Strtoll.antt =====
-- `strtoll` of the C library in base 10, as `sc_json_reader::int_at` uses it.
use esp_soulcloud_client.Prelude.{
  ℕ, zero, suc, ◌+◌, ◌-◌, ◌*◌, ◌^◌, [], ◌∷◌, ℤ, pos, negsuc, Bool, true, false, ◌&&◌, ◌||◌, Option,
  none, some, Bytes, ltb, leb, ◌==◌, if◌then◌else◌,
}

abbrev is_space : ℕ → Bool
is_space c = c == 32 || (leb 9 c && leb c 13)

abbrev is_digit : ℕ → Bool
is_digit c = leb b'0' c && leb c b'9'

-- The value of the digits in front, behind the value `acc` so far, and what follows them.
unfoldable pub digits : ℕ → Bytes → ℕ × Bytes
digits acc [] = (acc, [])
digits acc (c ∷ cs) =
    let rest = digits (acc * 10 + (c - b'0')) cs in if is_digit c then rest else (acc, c ∷ cs)

unfoldable pub skip_space : Bytes → Bytes
skip_space [] = []
skip_space (c ∷ cs) = if is_space c then skip_space cs else c ∷ cs

abbrev pub signed : Bool → ℕ → ℤ
signed false n = pos n
signed true zero = pos 0
signed true (suc n) = negsuc n

-- The digits behind the sign: `none` where there is none, so that `end == number`.
unfoldable pub unsigned_part : Bool → Bytes → Option (ℤ × Bytes)
unfolding digits
unsigned_part negative [] = none
unsigned_part negative (c ∷ cs) =
    if is_digit c
    then (let (n, rest) = digits 0 (c ∷ cs) in some (signed negative n, rest))
    else none

unfoldable pub sign_part : Bytes → Option (ℤ × Bytes)
unfolding unsigned_part
sign_part [] = none
sign_part (c ∷ cs) =
    if c == b'-'
    then unsigned_part true cs
    else if c == b'+'
    then unsigned_part false cs
    else unsigned_part false (c ∷ cs)

-- The value, before it is cut to 64 bits, and the text behind it.
unfoldable pub strtoll : Bytes → Option (ℤ × Bytes)
unfolding sign_part skip_space
strtoll text = sign_part (skip_space text)

-- A value that does not fit sets ERANGE.
unfoldable pub int64_of : ℤ → Option ℤ
int64_of (pos n) = if ltb n (2 ^ 63) then some (pos n) else none
int64_of (negsuc n) = if ltb n (2 ^ 63) then some (negsuc n) else none
