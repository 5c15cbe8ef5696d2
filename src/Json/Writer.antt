-- ===== src/Json/Writer.antt =====
-- `sc_json_writer`: sc_json.hpp lines 18 to 72 and sc_json.cpp lines 18 to 242.
-- A pointer to a C string is the bytes before its NUL, and `none` where it may be null. The bits of
-- `has_items`, a 32-bit word of which the code reads and writes one bit at a time, are a function.
use esp_soulcloud_client.Prelude.{
  ℕ, ◌+◌, ◌-◌, ◌/◌, ◌%◌, ℤ, [], ◌∷◌, List, Bool, true, false, ◌||◌, Option, none, some, Bytes,
  codes, length, set, take, copy_at, ltb, leb, ◌==◌, if◌then◌else◌,
}
use esp_soulcloud_client.Json.Decimal.{hex_digit, decimal, signed_decimal}

pub record Writer : Type 0 where
  pub buf : Bytes
  pub is_null : Bool
  pub cap : ℕ
  pub pos : ℕ
  pub overflow : Bool
  pub depth : ℕ
  pub has_items : ℕ → Bool

abbrev pub max_depth : ℕ
max_depth = 31

-- `word | 1 << n` and `word & ~(1 << n)`, by the bits of the word.
unfoldable pub set_bit : (ℕ → Bool) → ℕ → Bool → ℕ → Bool
set_bit word n v k = if k == n then v else word k

unfoldable pub reset : Writer → Writer
reset w =
    let overflow = w.is_null || ltb w.cap 1 in
    record w {
      pos = 0;
      depth = 0;
      has_items = λ _. false;
      overflow = overflow;
      buf = if overflow then w.buf else set w.buf 0 0;
    }

-- The constructor over the buffer `buf`, or over a null pointer.
unfoldable pub create : Option Bytes → ℕ → Writer
unfolding reset
create none cap = reset (record {
  buf = [];
  is_null = true;
  cap = cap;
  pos = 0;
  overflow = false;
  depth = 0;
  has_items = λ _. false;
})
create (some buf) cap = reset (record {
  buf = buf;
  is_null = false;
  cap = cap;
  pos = 0;
  overflow = false;
  depth = 0;
  has_items = λ _. false;
})

-- `put(char)`.
unfoldable pub put_char : Writer → ℕ → Writer
put_char w c =
    if w.overflow || leb w.cap (w.pos + 1)
    then record w { overflow = true }
    else record w { buf = set (set w.buf w.pos c) (w.pos + 1) 0; pos = w.pos + 1 }

-- `put(const char *, size_t)`.
unfoldable pub put : Writer → Bytes → Writer
put w str =
    if w.overflow || leb w.cap (w.pos + length str)
    then record w { overflow = true }
    else record w {
      buf = set (copy_at w.buf w.pos str) (w.pos + length str) 0;
      pos = w.pos + length str;
    }

-- The body of the loop of `put_escaped`.
unfoldable pub put_escaped_byte : Writer → ℕ → Writer
put_escaped_byte w c =
    if c == b'"'
    then put w (b'\\' ∷ b'"' ∷ [])
    else if c == b'\\'
    then put w (b'\\' ∷ b'\\' ∷ [])
    else if c == b'\n'
    then put w (b'\\' ∷ b'n' ∷ [])
    else if c == b'\r'
    then put w (b'\\' ∷ b'r' ∷ [])
    else if c == b'\t'
    then put w (b'\\' ∷ b't' ∷ [])
    else if ltb c 0x20
    then put w (b'\\' ∷ b'u' ∷ b'0' ∷ b'0' ∷ hex_digit (c / 16) ∷ hex_digit (c % 16) ∷ [])
    else put_char w c

-- The loop, which stops once the buffer is full.
unfoldable pub put_escaped_bytes : Writer → Bytes → Writer
put_escaped_bytes w [] = w
put_escaped_bytes w (c ∷ cs) =
    let rest = put_escaped_bytes (put_escaped_byte w c) cs in if w.overflow then w else rest

unfoldable pub put_escaped : Writer → Bytes → Writer
put_escaped w str = put_char (put_escaped_bytes (put_char w b'"') str) b'"'

-- The comma of `begin_value`, and the bit that asks for the next one.
unfoldable pub begin_item : Writer → Writer
begin_item w =
    if ltb 0 w.depth
    then (let w' = if w.has_items w.depth then put_char w b',' else w in
        record w' { has_items = set_bit w'.has_items w'.depth true })
    else w

unfoldable pub put_key : Writer → Option Bytes → Writer
put_key w none = w
put_key w (some key) = put_char (put_escaped w key) b':'

unfoldable pub begin_value : Writer → Option Bytes → Writer
begin_value w key = put_key (begin_item w) key

-- `begin_object` and `begin_array`, which differ in the bracket.
unfoldable pub begin_container : ℕ → Writer → Option Bytes → Writer
begin_container bracket w key =
    let w' = put_char (begin_value w key) bracket in
    if leb max_depth w'.depth
    then record w' { overflow = true }
    else record w' { depth = w'.depth + 1; has_items = set_bit w'.has_items (w'.depth + 1) false }

unfoldable pub end_container : ℕ → Writer → Writer
end_container bracket w =
    let w' = put_char w bracket in if ltb 0 w'.depth then record w' { depth = w'.depth - 1 } else w'

unfoldable pub begin_object : Writer → Option Bytes → Writer
begin_object = begin_container b'{'

unfoldable pub end_object : Writer → Writer
end_object = end_container b'}'

unfoldable pub begin_array : Writer → Option Bytes → Writer
begin_array = begin_container b'['

unfoldable pub end_array : Writer → Writer
end_array = end_container b']'

unfoldable pub add_null : Writer → Option Bytes → Writer
add_null w key = put (begin_value w key) (codes "null")

-- `add_str` with a length; the other overload takes it from `strlen`.
unfoldable pub add_str_len : Writer → Option Bytes → Bytes → Writer
add_str_len w key value = put_escaped (begin_value w key) value

unfoldable pub add_str : Writer → Option Bytes → Option Bytes → Writer
add_str w key none = add_null w key
add_str w key (some value) = add_str_len w key value

-- The text is what `vsnprintf` would write to a buffer without end, `none` where it fails.
unfoldable pub add_fmt : Writer → Option Bytes → Option Bytes → Writer
add_fmt w key none = record w { overflow = true }
add_fmt w key (some text) =
    add_str_len w key (if ltb (length text) 128 then text else take 127 text)

unfoldable pub add_int : Writer → Option Bytes → ℤ → Writer
add_int w key value = put (begin_value w key) (signed_decimal value)

unfoldable pub add_uint : Writer → Option Bytes → ℕ → Writer
add_uint w key value = put (begin_value w key) (decimal value)

unfoldable pub add_bool : Writer → Option Bytes → Bool → Writer
add_bool w key value =
    if value
    then put (begin_value w key) (codes "true")
    else put (begin_value w key) (codes "false")

-- The loop of `add_hex`.
unfoldable pub put_hex_bytes : Writer → Bytes → Writer
put_hex_bytes w [] = w
put_hex_bytes w (c ∷ cs) =
    let rest = put_hex_bytes (put_char (put_char w (hex_digit (c / 16))) (hex_digit (c % 16))) cs in
    if w.overflow then w else rest

unfoldable pub add_hex : Writer → Option Bytes → Bytes → Writer
add_hex w key bytes = put_char (put_hex_bytes (put_char (begin_value w key) b'"') bytes) b'"'

-- One call of the public interface.
pub data Op : Type 0 where
  begins_object begins_array : Option Bytes → Op
  ends_object ends_array : Op
  adds_str adds_fmt : Option Bytes → Option Bytes → Op
  adds_int : Option Bytes → ℤ → Op
  adds_uint : Option Bytes → ℕ → Op
  adds_bool : Option Bytes → Bool → Op
  adds_null : Option Bytes → Op
  adds_hex : Option Bytes → Bytes → Op

unfoldable pub apply : Writer → Op → Writer
apply w (begins_object key) = begin_object w key
apply w (begins_array key) = begin_array w key
apply w ends_object = end_object w
apply w ends_array = end_array w
apply w (adds_str key value) = add_str w key value
apply w (adds_fmt key text) = add_fmt w key text
apply w (adds_int key value) = add_int w key value
apply w (adds_uint key value) = add_uint w key value
apply w (adds_bool key value) = add_bool w key value
apply w (adds_null key) = add_null w key
apply w (adds_hex key bytes) = add_hex w key bytes

-- A chain of calls.
unfoldable pub run : Writer → List Op → Writer
run w [] = w
run w (op ∷ ops) = run (apply w op) ops

-- `ok()`, and the text that `c_str()` and `len()` give.
abbrev pub is_ok : Writer → Bool
is_ok w = elim w.overflow [ true ↦ false | false ↦ true ]

abbrev pub text : Writer → Bytes
text w = take w.pos w.buf
