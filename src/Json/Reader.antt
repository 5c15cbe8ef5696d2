-- ===== src/Json/Reader.antt =====
-- `sc_json_reader`: sc_json.hpp lines 93 to 136 and sc_json.cpp lines 244 to 462.
-- A token index is `none` where the code passes -1.
pub mod Scalars
pub mod Tree
pub mod Find
use esp_soulcloud_client.Prelude.{
  ℕ, zero, suc, ◌+◌, ◌-◌, ◌*◌, ◌≡◌, refl, [], ◌∷◌, List, ℤ, pos, negsuc, Bool, true, false, not,
  ◌&&◌, ◌||◌, Option, none, some, Bytes, codes, length, get_elem?, set, equal, c_string, ltb, leb,
  ◌==◌, if◌then◌else◌,
}
use esp_soulcloud_client.Esp.{EspErr, esp_ok, no_mem, invalid_arg}
use esp_soulcloud_client.Json.Strtoll.{strtoll, int64_of}
use esp_soulcloud_client.Json.Token.{
  Token, Tokeniser, error_nomem, error_syntax, parsed, slice, is_object_type, is_string_type,
  is_primitive_type,
}
use esp_soulcloud_client.Json.Unescape.{Sink, unescape}

-- `tokens` are the tokens in use, `count` of them.
pub record Reader : Type 0 where
  pub tokens : List Token
  pub json : Bytes

abbrev pub count : Reader → ℕ
count r = length r.tokens

-- `parse` into an array of `max_tokens`. After an error no token is in use.
unfoldable pub parse : Tokeniser → ℕ → Bytes → EspErr × Reader
parse jsmn max_tokens json = elim (jsmn json max_tokens) [
  | error_nomem ↦ (no_mem, record { tokens = []; json = json })
  | error_syntax ↦ (invalid_arg, record { tokens = []; json = json })
  | parsed [] ↦ (invalid_arg, record { tokens = []; json = json })
  | parsed (root ∷ rest) ↦
      if is_object_type root.type
      then (esp_ok, record { tokens = root ∷ rest; json = json })
      else (invalid_arg, record { tokens = []; json = json })
]

-- The token at an index, where the index is in range.
abbrev pub token_at : Reader → Option ℕ → Option Token
token_at r none = none
token_at r (some tok) = get_elem? r.tokens tok

abbrev size_of : Option Token → ℕ
size_of none = 0
size_of (some t) = t.size

-- The loop of `skip`, for the rounds that are left before `idx` reaches `count`.
unfoldable pub skip_loop : List Token → ℕ → ℕ → ℕ → ℕ
skip_loop tokens zero pending idx = idx
skip_loop tokens (suc rounds) pending idx =
    let next = skip_loop tokens rounds (pending + size_of (get_elem? tokens idx) - 1) (idx + 1) in
    if ltb 0 pending then next else idx

unfoldable pub skip : Reader → Option ℕ → Option ℕ
unfolding skip_loop
skip r none = none
skip r (some tok) =
    if leb (count r) tok
    then none
    else (let idx = skip_loop r.tokens (count r - tok) 1 tok in
        if ltb idx (count r) then some idx else none)

unfoldable pub key_equals : Reader → Token → Bytes → Bool
key_equals r t key = is_string_type t.type && equal (slice r.json t.start t.stop) key

-- The loop of `find`, for the members that are left; `member` is the key token.
unfoldable pub find_loop : Reader → Bytes → ℕ → Option ℕ → Option ℕ
find_loop r key zero member = none
find_loop r key (suc rounds) none = none
find_loop r key (suc rounds) (some member) =
    let next = find_loop r key rounds (skip r (some (member + 1))) in
    if not (ltb (member + 1) (count r)) then none else elim (get_elem? r.tokens member) [
      | none ↦ none
      | some t ↦
          if not (t.size == 1) then none else if key_equals r t key then some (member + 1) else next
    ]

unfoldable pub is_object : Reader → Option ℕ → Bool
is_object r tok = elim (token_at r tok) [ none ↦ false | some t ↦ is_object_type t.type ]

unfoldable pub child_count : Reader → Option ℕ → ℕ
child_count r tok = size_of (token_at r tok)

unfoldable pub find : Reader → Option ℕ → Bytes → Option ℕ
find r none key = none
find r (some object) key =
    if not (is_object r (some object))
    then none
    else find_loop r key (size_of (get_elem? r.tokens object)) (some (object + 1))

unfoldable pub raw : Reader → Option ℕ → Option Bytes
raw r tok = elim (token_at r tok) [ none ↦ none | some t ↦ some (slice r.json t.start t.stop) ]

-- The loop of `str_at` over the text of a token, and the NUL behind it. The value is what the code
-- returns, and the caller's buffer `out` of `cap` bytes afterwards.
unfoldable pub read_text : Bytes → ℕ → Bytes → Bool × Bytes
read_text text cap out =
    let (fits, s) = unescape (length text) cap text (record { out = out; out_len = 0 }) in
    if fits then (true, set s.out s.out_len 0) else (false, s.out)

unfoldable pub str_at : Reader → Option ℕ → ℕ → Bytes → Bool × Bytes
str_at r tok cap out = elim (token_at r tok) [
  | none ↦ (false, out)
  | some t ↦
      if not (is_string_type t.type) || ltb cap 1
      then (false, out)
      else read_text (slice r.json t.start t.stop) cap out
]

unfoldable pub get_str : Reader → Option ℕ → Bytes → ℕ → Bytes → Bool × Bytes
get_str r object key cap out = str_at r (find r object key) cap out

-- The text of a primitive as a whole number. `none` where the code returns false and leaves `out`
-- alone.
unfoldable pub read_int : Bytes → Option ℤ
read_int text =
    if length text == 0 || ltb 20 (length text) then none else elim (strtoll (c_string text)) [
      | none ↦ none
      | some (value, rest) ↦ if length rest == 0 then int64_of value else none
    ]

unfoldable pub int_at : Reader → Option ℕ → Option ℤ
int_at r tok = elim (token_at r tok) [
  | none ↦ none
  | some t ↦ if not (is_primitive_type t.type) then none else read_int (slice r.json t.start t.stop)
]

unfoldable pub get_int : Reader → Option ℕ → Bytes → Option ℤ
get_int r object key = int_at r (find r object key)

unfoldable pub get_bool : Reader → Option ℕ → Bytes → Option Bool
get_bool r object key = elim (token_at r (find r object key)) [
  | none ↦ none
  | some t ↦
      (let text = slice r.json t.start t.stop in
        if not (is_primitive_type t.type)
        then none
        else if equal text (codes "true")
        then some true
        else if equal text (codes "false")
        then some false
        else none)
]
