-- ===== src/Json/Token.antt =====
-- `sc_json_token`, which mirrors `jsmntok_t`, and the jsmn tokeniser as a parameter.
use esp_soulcloud_client.Prelude.{ℕ, ◌-◌, List, Bytes, Bool, true, false, take, drop}

pub data TokenType : Type 0 where
  undefined object array string primitive : TokenType

pub record Token : Type 0 where
  pub type : TokenType
  pub start : ℕ
  pub stop : ℕ
  pub size : ℕ

abbrev pub is_object_type : TokenType → Bool
is_object_type object = true
is_object_type _ = false

abbrev pub is_string_type : TokenType → Bool
is_string_type string = true
is_string_type _ = false

abbrev pub is_primitive_type : TokenType → Bool
is_primitive_type primitive = true
is_primitive_type _ = false

-- What `jsmn_parse` gives: JSMN_ERROR_NOMEM, another error, or the tokens that it wrote.
pub data Parsed : Type 0 where
  error_nomem error_syntax : Parsed
  parsed : List Token → Parsed

-- `jsmn_parse` on a text and a token array of the given size.
abbrev pub Tokeniser : Type 0
Tokeniser = Bytes → ℕ → Parsed

-- The text between two offsets.
abbrev pub slice : Bytes → ℕ → ℕ → Bytes
slice json start stop = take (stop - start) (drop start json)
