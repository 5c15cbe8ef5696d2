-- ===== src/Client/Calls.antt =====
-- What `sc_client` does with the answers to its two calls: `sync_time` and `check_for_update`
-- (src/sc_client.cpp lines 345 to 386).
pub mod Started
use esp_soulcloud_client.Prelude.{
  ℕ, zero, suc, ◌+◌, ◌*◌, ◌/◌, ◌%◌, List, [], Bool, true, false, not, ◌||◌, Option, none, some,
  Bytes, codes, c_string, ℤ, pos, negsuc, ltb, if◌then◌else◌,
}
use esp_soulcloud_client.Esp.{EspErr}
use esp_soulcloud_client.Codec.Decode.{no_params, decode_ota_params}
use esp_soulcloud_client.Json.Reader.{Reader, find, get_int, is_object}
use esp_soulcloud_client.Json.Token.{Tokeniser}
use esp_soulcloud_client.Mqtt.Publish.{Client}
use esp_soulcloud_client.Ota.{Params}
use esp_soulcloud_client.Ota.Control.{Control, start}
use esp_soulcloud_client.Rpc.Calls.{Caller, Fragment, Result, call}

-- A document without tokens, and a token of -1.
abbrev pub no_result : Result
no_result = record { doc = record { tokens = []; json = [] }; token = none }

-- `timeval`.
pub record TimeVal : Type 0 where
  pub sec : ℤ
  pub usec : ℤ

abbrev pub neg : ℕ → ℤ
neg zero = pos 0
neg (suc n) = negsuc n

-- Division and remainder of C round towards zero.
unfoldable pub time_of : ℤ → TimeVal
time_of (pos ms) = record { sec = pos (ms / 1000); usec = pos (ms % 1000 * 1000) }
time_of (negsuc n) = record { sec = neg ((n + 1) / 1000); usec = neg ((n + 1) % 1000 * 1000) }

-- The time that an answer gives.
abbrev pub answered_time : EspErr × Result → Option ℤ
answered_time (EspErr.esp_ok, r) = get_int r.doc r.token (codes "epochMs")
answered_time (ret, r) = none

abbrev pub to_time : Option ℤ → Option TimeVal
to_time none = none
to_time (some ms) = some (time_of ms)

-- The strings in the arrays.
abbrev pub strings_of : Params → Params
strings_of p = record {
  url = c_string p.url;
  sha256 = c_string p.sha256;
  size = p.size;
  version = c_string p.version;
  task_id = c_string p.task_id;
}

abbrev pub start_decoded : Control → Bool → EspErr × Params → Control
start_decoded c created (EspErr.esp_ok, params) = (start created (strings_of params) c).1
start_decoded c created (ret, params) = c

-- The update of an answer, where `xTaskCreate` would give `created`.
unfoldable pub use_update : Control → Bool → EspErr × Result → Control
use_update c created (EspErr.esp_ok, r) =
    let update = find r.doc r.token (codes "update") in
    if not (is_object r.doc update)
    then c
    else start_decoded c created (decode_ota_params r.doc update no_params)
use_update c created (ret, r) = c

module _ (api : Client) (jsmn : Tokeniser) where
  -- `now` is `time(nullptr)`. What `settimeofday` is called with.
  unfoldable pub sync_time : Caller api → ℕ → List Fragment → Option TimeVal × Caller api
  sync_time s now fs =
      let called = call api jsmn 16 s (codes "time") (codes "{}") no_result fs in
      if ltb 1700000000 now then (none, s) else (to_time (answered_time called.0), called.1)

  unfoldable pub check_for_update :
      Caller api → Control → Bool → List Fragment → Control × Caller api
  check_for_update s c created fs =
      let called = call api jsmn 24 s (codes "ota.check") (codes "{}") no_result fs in
      (use_update c created called.0, called.1)
