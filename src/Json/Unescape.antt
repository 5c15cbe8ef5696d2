-- ===== src/Json/Unescape.antt =====
-- The loop of `sc_json_reader::str_at`, sc_json.cpp lines 330 to 425: escapes are replaced, and the
-- bytes go to a buffer of `cap` bytes while they fit.
use esp_soulcloud_client.Prelude.{
  ℕ, zero, suc, ◌+◌, ◌-◌, ◌*◌, ◌/◌, ◌%◌, [], ◌∷◌, Bool, true, false, ◌&&◌, Option, none, some,
  Bytes, length, set, take, drop, ltb, leb, ◌==◌, if◌then◌else◌,
}

-- `static int hex_value(char)`; `none` is -1.
unfoldable pub hex_value : ℕ → Option ℕ
hex_value c =
    if leb b'0' c && leb c b'9'
    then some (c - b'0')
    else if leb b'a' c && leb c b'f'
    then some (c - b'a' + 10)
    else if leb b'A' c && leb c b'F'
    then some (c - b'A' + 10)
    else none

-- The digits of a `\u` escape, high digit first, behind the value `code` so far.
unfoldable pub hex_code : ℕ → Bytes → Option ℕ
hex_code code [] = some code
hex_code code (c ∷ cs) = elim (hex_value c) [
  | none ↦ none
  | some digit ↦ hex_code (code * 16 + digit) cs
]

-- A code unit in UTF-8; a surrogate becomes '?'.
unfoldable pub utf8 : ℕ → Bytes
utf8 unit =
    let code = if leb 0xd800 unit && leb unit 0xdfff then b'?' else unit in
    if ltb code 0x80
    then code ∷ []
    else if ltb code 0x800
    then (0xc0 + code / 64) ∷ (0x80 + code % 64) ∷ []
    else (0xe0 + code / 4096) ∷ (0x80 + code / 64 % 64) ∷ (0x80 + code % 64) ∷ []

unfoldable pub simple_escape : ℕ → ℕ
simple_escape esc =
    if esc == b'b'
    then 8
    else if esc == b'f'
    then 12
    else if esc == b'n'
    then b'\n'
    else if esc == b'r'
    then b'\r'
    else if esc == b't'
    then b'\t'
    else esc

unfoldable pub unicode_escape : Bytes → Option (Bytes × Bytes)
unfolding hex_code utf8
unicode_escape rest =
    if ltb (length rest) 4
    then none
    else elim (hex_code 0 (take 4 rest)) [ none ↦ none | some code ↦ some (utf8 code, drop 4 rest) ]

unfoldable pub escaped : Bytes → Option (Bytes × Bytes)
unfolding simple_escape unicode_escape
escaped [] = none
escaped (esc ∷ rest) =
    if esc == b'u' then unicode_escape rest else some (simple_escape esc ∷ [], rest)

-- One round of the loop at byte `c`: the bytes to emit and what is left to read, or `none` where
-- the text is malformed.
unfoldable pub next_unit : ℕ → Bytes → Option (Bytes × Bytes)
unfolding escaped
next_unit c rest = if c == b'\\' then escaped rest else some (c ∷ [], rest)

-- The caller's buffer and how much of it is written.
pub record Sink : Type 0 where
  pub out : Bytes
  pub out_len : ℕ

-- `emit` on some bytes in turn, up to the first that does not fit beside the final NUL.
unfoldable pub emit : ℕ → Sink → Bytes → Bool × Sink
emit cap s [] = (true, s)
emit cap s (c ∷ cs) =
    if leb cap (s.out_len + 1)
    then (false, s)
    else emit cap (record { out = set s.out s.out_len c; out_len = s.out_len + 1 }) cs

-- The `while` loop. Each round reads one byte at least, so the length of the text is enough fuel.
unfoldable pub unescape : ℕ → ℕ → Bytes → Sink → Bool × Sink
unfolding next_unit emit
unescape fuel cap [] s = (true, s)
unescape zero cap (c ∷ text) s = (false, s)
unescape (suc fuel) cap (c ∷ text) s = elim (next_unit c text) [
  | none ↦ (false, s)
  | some (bytes, rest) ↦
      let (fits, s') = emit cap s bytes in
      let later = unescape fuel cap rest s' in if fits then later else (false, s')
]
