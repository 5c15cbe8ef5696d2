-- ===== src/Json/Page.antt =====
-- The writer without a buffer: what the calls of `sc_json_writer` would write to a page without end.
-- `broken` records the two faults that do not come from the buffer: a container nested too deep, and
-- a format that `vsnprintf` refuses.
use esp_soulcloud_client.Prelude.{
  ℕ, ◌+◌, ◌-◌, ◌/◌, ◌%◌, [], ◌∷◌, ◌++◌, List, ◌≡◌, Bool, true, false, Option, none, some, Bytes,
  codes, length, take, ltb, leb, ◌==◌, if◌then◌else◌, append_assoc,
}
use esp_soulcloud_client.Json.Decimal.{hex_digit, decimal, signed_decimal}
use esp_soulcloud_client.Json.Writer.{
  Op, begins_object, begins_array, ends_object, ends_array, adds_str, adds_fmt, adds_int, adds_uint,
  adds_bool, adds_null, adds_hex, set_bit, max_depth,
}

pub record Page : Type 0 where
  pub text : Bytes
  pub broken : Bool
  pub depth : ℕ
  pub has_items : ℕ → Bool

abbrev pub blank : Page
blank = record { text = []; broken = false; depth = 0; has_items = λ _. false }

abbrev pub emit : Page → Bytes → Page
emit a s = record a { text = a.text ++ s }

pub emit-emit : (a : Page) (s t : Bytes) → emit (emit a s) t ≡ emit a (s ++ t)
emit-emit a s t = rw (append_assoc a.text s t)

-- The text of one byte of a string.
unfoldable pub escape_byte : ℕ → Bytes
escape_byte c =
    if c == b'"'
    then b'\\' ∷ b'"' ∷ []
    else if c == b'\\'
    then b'\\' ∷ b'\\' ∷ []
    else if c == b'\n'
    then b'\\' ∷ b'n' ∷ []
    else if c == b'\r'
    then b'\\' ∷ b'r' ∷ []
    else if c == b'\t'
    then b'\\' ∷ b't' ∷ []
    else if ltb c 0x20
    then b'\\' ∷ b'u' ∷ b'0' ∷ b'0' ∷ hex_digit (c / 16) ∷ hex_digit (c % 16) ∷ []
    else c ∷ []

unfoldable pub escape : Bytes → Bytes
escape [] = []
escape (c ∷ cs) = escape_byte c ++ escape cs

abbrev pub quoted : Bytes → Bytes
quoted s = b'"' ∷ (escape s ++ b'"' ∷ [])

unfoldable pub hex_text : Bytes → Bytes
hex_text [] = []
hex_text (c ∷ cs) = hex_digit (c / 16) ∷ hex_digit (c % 16) ∷ hex_text cs

-- A comma behind an earlier value of the same container.
abbrev pub start_item : Page → Page
start_item a =
    if ltb 0 a.depth
    then record a {
      text = if a.has_items a.depth then a.text ++ b',' ∷ [] else a.text;
      has_items = set_bit a.has_items a.depth true;
    }
    else a

abbrev pub write_key : Page → Option Bytes → Page
write_key a none = a
write_key a (some key) = emit a (quoted key ++ b':' ∷ [])

abbrev pub start_value : Page → Option Bytes → Page
start_value a key = write_key (start_item a) key

abbrev pub enter : Page → Page
enter a =
    if leb max_depth a.depth
    then record a { broken = true }
    else record a { depth = a.depth + 1; has_items = set_bit a.has_items (a.depth + 1) false }

abbrev pub leave : Page → Page
leave a = if ltb 0 a.depth then record a { depth = a.depth - 1 } else a

abbrev pub open_container : ℕ → Page → Option Bytes → Page
open_container bracket a key = enter (emit (start_value a key) (bracket ∷ []))

abbrev pub close_container : ℕ → Page → Page
close_container bracket a = leave (emit a (bracket ∷ []))

abbrev pub str_text : Option Bytes → Bytes
str_text none = codes "null"
str_text (some value) = quoted value

abbrev pub bool_text : Bool → Bytes
bool_text true = codes "true"
bool_text false = codes "false"

abbrev pub cut_fmt : Bytes → Bytes
cut_fmt text = if ltb (length text) 128 then text else take 127 text

unfoldable pub apply : Page → Op → Page
apply a (begins_object key) = open_container b'{' a key
apply a (begins_array key) = open_container b'[' a key
apply a ends_object = close_container b'}' a
apply a ends_array = close_container b']' a
apply a (adds_str key value) = emit (start_value a key) (str_text value)
apply a (adds_fmt key none) = record a { broken = true }
apply a (adds_fmt key (some text)) = emit (start_value a key) (quoted (cut_fmt text))
apply a (adds_int key value) = emit (start_value a key) (signed_decimal value)
apply a (adds_uint key value) = emit (start_value a key) (decimal value)
apply a (adds_bool key value) = emit (start_value a key) (bool_text value)
apply a (adds_null key) = emit (start_value a key) (codes "null")
apply a (adds_hex key bytes) = emit (start_value a key) (b'"' ∷ (hex_text bytes ++ b'"' ∷ []))

unfoldable pub run : Page → List Op → Page
run a [] = a
run a (op ∷ ops) = run (apply a op) ops
