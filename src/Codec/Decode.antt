-- ===== src/Codec/Decode.antt =====
-- The decoders of `sc_codec` (src/sc_codec.cpp lines 70 to 157, and the structs of src/sc_messages.hpp).
-- A `char` array is a buffer of its size, and the string in it ends at the first NUL.
pub mod Refill
pub mod Tags
pub mod Update
use esp_soulcloud_client.Prelude.{
  ℕ, zero, suc, ◌+◌, ℤ, pos, negsuc, List, [], ◌∷◌, Bool, true, false, not, ◌&&◌, ◌||◌, Option,
  none, some, Bytes, codes, length, replicate, c_string, equal, ltb, leb, ◌==◌, if◌then◌else◌,
}
use esp_soulcloud_client.Esp.{EspErr}
use esp_soulcloud_client.Json.Reader.{
  Reader, parse, find, get_str, get_int, get_bool, is_object, child_count, str_at, skip,
}
use esp_soulcloud_client.Ota.{Params}
use esp_soulcloud_client.Json.Token.{Tokeniser}

-- `sc_enroll_response`: `char [16]`, `[48]` and `[160]`.
pub record EnrollResponse : Type 0 where
  pub device_id : Bytes
  pub password : Bytes
  pub mqtt_url : Bytes

abbrev pub no_response : EnrollResponse
no_response = record {
  device_id = replicate 16 0;
  password = replicate 48 0;
  mqtt_url = replicate 160 0;
}

-- `ok = ok && doc.get_str(...)`: behind a failure the buffer is not written.
abbrev pub and_str : Bool → Bool × Bytes → Bytes → Bool × Bytes
and_str true read out = read
and_str false read out = (false, out)

-- The three members, from a document.
unfoldable pub read_response : Reader → EnrollResponse → EspErr × EnrollResponse
read_response doc out =
    let mqtt = find doc (some 0) (codes "mqtt") in
    let id = get_str doc (some 0) (codes "deviceId") 16 out.device_id in
    let password =
      and_str id.0 (get_str doc mqtt (codes "password") 48 out.password) out.password in
    let url = and_str password.0 (get_str doc mqtt (codes "url") 160 out.mqtt_url) out.mqtt_url in
    (
      if url.0 then EspErr.esp_ok else EspErr.invalid_response,
      record { device_id = id.1; password = password.1; mqtt_url = url.1 },
    )

unfoldable pub decode_enroll_response : Tokeniser → Bytes → EnrollResponse → EspErr × EnrollResponse
decode_enroll_response jsmn payload out =
    let (ret, doc) = parse jsmn 48 payload in
    elim ret [ EspErr.esp_ok ↦ read_response doc out | failed ↦ (failed, out) ]

-- An empty `sc_ota_params`: `char [384]`, `[65]`, `[33]` and `[40]`.
abbrev pub no_params : Params
no_params = record {
  url = replicate 384 0;
  sha256 = replicate 65 0;
  size = 0;
  version = replicate 33 0;
  task_id = replicate 40 0;
}

-- `doc.get_int(object, "size", size) && size > 0 && size <= UINT32_MAX`, and the size.
unfoldable pub read_size : Option ℤ → Option ℕ
read_size none = none
read_size (some (negsuc n)) = none
read_size (some (pos n)) = if ltb 0 n && leb n 4294967295 then some n else none

-- `version[0] = '\0'`.
abbrev pub emptied : Bytes → Bytes
emptied [] = []
emptied (c ∷ cs) = 0 ∷ cs

abbrev pub version_or_empty : Bool × Bytes → Bytes
version_or_empty (true, version) = version
version_or_empty (false, version) = emptied version

-- The rest, with the size that was read; `out` has the URL and the digest.
unfoldable pub with_size : Reader → Option ℕ → Params → Option ℕ → EspErr × Params
with_size doc object out none = (EspErr.invalid_arg, out)
with_size doc object out (some size) =
    let task_id = get_str doc object (codes "taskId") 40 out.task_id in
    let version = get_str doc object (codes "version") 33 out.version in
    if not task_id.0 then (EspErr.invalid_arg, record out { task_id = task_id.1 }) else (
      EspErr.esp_ok,
      record out { size = size; version = version_or_empty version; task_id = task_id.1 },
    )

unfoldable pub decode_ota_params : Reader → Option ℕ → Params → EspErr × Params
decode_ota_params doc object out =
    let url = get_str doc object (codes "url") 384 out.url in
    let sha256 = and_str url.0 (get_str doc object (codes "sha256") 65 out.sha256) out.sha256 in
    let ok = sha256.0 && length (c_string sha256.1) == 64 in
    with_size doc object (record out { url = url.1; sha256 = sha256.1 })
      (if ok then read_size (get_int doc object (codes "size")) else none)

abbrev level_names : List Bytes
level_names =
    codes "none"
    ∷ codes "error"
    ∷ codes "warn"
    ∷ codes "info"
    ∷ codes "debug"
    ∷ codes "verbose"
    ∷ []

-- The loop of `level_from_name`, at index `idx`.
unfoldable pub level_in : Bytes → ℕ → List Bytes → Option ℕ
level_in name idx [] = none
level_in name idx (n ∷ names) =
    let later = level_in name (idx + 1) names in if equal name n then some idx else later

-- `none` where the code gives -1.
abbrev pub level_from_name : Bytes → Option ℕ
level_from_name name = level_in name 0 level_names

-- `sc_log_config`; `none` is -1.
pub record LogConfig : Type 0 where
  pub level : Option ℕ
  pub text : Option Bool
  pub bin : Option Bool

-- A call of `set_tag`.
pub record TagLevel : Type 0 where
  pub tag : Bytes
  pub level : ℕ

abbrev pub with_level : Bytes → Option ℕ → Option TagLevel
with_level tag none = none
with_level tag (some l) = some (record { tag = tag; level = l })

-- The tag and the level of the member at a key token, and the buffer `name` behind them.
unfoldable pub read_member : Reader → ℕ → Bytes → Option TagLevel × Bytes
read_member doc member name =
    let tag = str_at doc (some member) 32 (replicate 32 0) in
    let level = str_at doc (some (member + 1)) 16 name in
    if not tag.0
    then (none, name)
    else if not level.0
    then (none, level.1)
    else (with_level (c_string tag.1) (level_from_name (c_string level.1)), level.1)

-- A round of a pass at an entry, behind which the other rounds do `later`.
abbrev pub pass_step :
    Bool
    → Option TagLevel × Bytes
    → (EspErr × List TagLevel) × Bytes
    → (EspErr × List TagLevel) × Bytes
pass_step apply (none, name) later = ((EspErr.invalid_arg, []), name)
pass_step apply (some tag, name) later =
    ((later.0.0, if apply then tag ∷ later.0.1 else later.0.1), later.1)

-- One pass, for the entries that are left, with the calls it makes; `apply` in the second.
unfoldable pub pass : Reader → Bool → ℕ → Option ℕ → Bytes → (EspErr × List TagLevel) × Bytes
pass doc apply zero member name = ((EspErr.esp_ok, []), name)
pass doc apply (suc left) none name = ((EspErr.esp_ok, []), name)
pass doc apply (suc left) (some member) name =
    let entry = read_member doc member name in
    pass_step apply entry (pass doc apply left (skip doc (some (member + 1))) entry.1)

-- The second pass is not run where the first fails.
abbrev pub and_then : EspErr × List TagLevel → EspErr × List TagLevel → EspErr × List TagLevel
and_then (EspErr.esp_ok, calls) second = second
and_then (ret, calls) second = (ret, calls)

unfoldable pub passes : Reader → ℕ → Bytes → EspErr × List TagLevel
passes doc tags name =
    let first = pass doc false (child_count doc (some tags)) (some (tags + 1)) name in
    and_then first.0 (pass doc true (child_count doc (some tags)) (some (tags + 1)) first.1).0

unfoldable pub decode_tags : Reader → Bytes → EspErr × List TagLevel
decode_tags doc name = elim (find doc (some 0) (codes "tags")) [
  | none ↦ (EspErr.esp_ok, [])
  | some tags ↦
      if not (is_object doc (some tags)) then (EspErr.invalid_arg, []) else passes doc tags name
]

abbrev or_else : Option Bool → Option Bool → Option Bool
or_else none old = old
or_else (some flag) old = some flag

unfoldable pub decode_flags : Reader → LogConfig → LogConfig
decode_flags doc out = record out {
  text = or_else (get_bool doc (some 0) (codes "text")) out.text;
  bin = or_else (get_bool doc (some 0) (codes "bin")) out.bin;
}

-- What is returned, what `out` is afterwards, and the calls of `set_tag`.
abbrev pub LogResult : Type 0
LogResult = (EspErr × LogConfig) × List TagLevel

-- The name of a level was read: the rest is done where it is one.
abbrev pub with_named_level : Option ℕ → Reader → LogConfig → EspErr × List TagLevel → LogResult
with_named_level none doc out rest = ((EspErr.invalid_arg, record out { level = none }), [])
with_named_level (some l) doc out rest =
    ((rest.0, decode_flags doc (record out { level = some l })), rest.1)

unfoldable pub decode_log_config : Reader → LogConfig → LogResult
decode_log_config doc out =
    let name = get_str doc (some 0) (codes "level") 16 (replicate 16 0) in
    let rest = decode_tags doc name.1 in
    if not name.0
    then ((rest.0, decode_flags doc out), rest.1)
    else with_named_level (level_from_name (c_string name.1)) doc out rest
