-- ===== src/Credentials.antt =====
-- `sc_credentials` (src/sc_credentials.cpp and src/sc_credentials.hpp). The device's identity is an
-- `sc_enroll_response`, whose members are buffers; a string of C is one without NUL.
pub mod Kept
pub mod Body
pub mod Enrolled
use esp_soulcloud_client.Prelude.{
  ℕ, zero, suc, ◌+◌, ◌-◌, ◌≤◌, ◌<◌, List, [], ◌∷◌, ◌++◌, ◌≡◌, ◌≢◌, Bool, true, false, not, Option,
  none, some, Bytes, codes, length, replicate, c_string, leb, ltb, ◌==◌, if◌then◌else◌,
}
use esp_soulcloud_client.Esp.{EspErr}
use esp_soulcloud_client.Codec.{EnrollRequest, encode_enroll_request}
use esp_soulcloud_client.Codec.Decode.{EnrollResponse, no_response, decode_enroll_response}
use esp_soulcloud_client.Json.Token.{Tokeniser}

-- What is called outside the repository: NVS, opened read-only by `open_read` and for writing by
-- `open_write`, the heap, and the HTTP client. A read that gives no bytes is one that returns 0 or less;
-- `send` says whether all bytes were written, and `fetch_headers` whether it gave no error. A string that
-- was set is read back into a buffer that holds it and its NUL, another key keeps its string, and what
-- opens, commits and closes changes no string.
pub record Platform : Type 1 where
  pub World : Type 0
  pub open_read : World → EspErr × World
  pub open_write : World → EspErr × World
  pub get_str : World → Bytes → Bytes → EspErr × Bytes
  pub set_str : World → Bytes → Bytes → EspErr × World
  pub erase_all : World → EspErr × World
  pub commit : World → EspErr × World
  pub close : World → World
  pub malloc : World → ℕ → Bool × World
  pub http_init : World → Bytes → Bool × World
  pub http_open : World → ℕ → EspErr × World
  pub send : World → Bytes → Bool × World
  pub fetch_headers : World → Bool × World
  pub status_code : World → ℕ
  pub read : World → ℕ → Bytes × World
  pub http_close : World → World
  pub read_fits : (w : World) (want : ℕ) → length (read w want).0 ≤ want
  pub get-set :
      (w : World) (key value buf : Bytes)
      → (set_str w key value).0 ≡ EspErr.esp_ok
      → c_string value ≡ value
      → length value < length buf
      → ((get_str (set_str w key value).1 key buf).0 ≡ EspErr.esp_ok)
        × (c_string (get_str (set_str w key value).1 key buf).1 ≡ value)
  pub get-set_other :
      (w : World) (key other value buf : Bytes)
      → (set_str w key value).0 ≡ EspErr.esp_ok
      → other ≢ key
      → get_str (set_str w key value).1 other buf ≡ get_str w other buf
  pub get-commit : (w : World) (key buf : Bytes) → get_str (commit w).1 key buf ≡ get_str w key buf
  pub get-close : (w : World) (key buf : Bytes) → get_str (close w) key buf ≡ get_str w key buf
  pub get-open_read :
      (w : World) (key buf : Bytes) → get_str (open_read w).1 key buf ≡ get_str w key buf

abbrev pub key_device_id : Bytes
key_device_id = codes "dev_id"

abbrev pub key_password : Bytes
key_password = codes "password"

abbrev pub key_mqtt_url : Bytes
key_mqtt_url = codes "mqtt_url"

-- ESP_ERR_NVS_NOT_FOUND is reported as ESP_ERR_NOT_FOUND.
abbrev pub not_found_of : EspErr → EspErr
not_found_of EspErr.nvs_not_found = EspErr.not_found
not_found_of ret = ret

-- `ret = ret ?: next`.
abbrev pub and_then : {A : Type 0} → EspErr × A → (A → EspErr × A) → EspErr × A
and_then (EspErr.esp_ok, a) next = next a
and_then (ret, a) next = (ret, a)

abbrev pub with_device_id : EnrollResponse → EspErr × Bytes → EspErr × EnrollResponse
with_device_id r (ret, buf) = (ret, record r { device_id = buf })

abbrev pub with_password : EnrollResponse → EspErr × Bytes → EspErr × EnrollResponse
with_password r (ret, buf) = (ret, record r { password = buf })

abbrev pub with_mqtt_url : EnrollResponse → EspErr × Bytes → EspErr × EnrollResponse
with_mqtt_url r (ret, buf) = (ret, record r { mqtt_url = buf })

-- `snprintf` of the address, where it fits 192 bytes.
unfoldable pub enroll_url : Bytes → Option Bytes
enroll_url api_url =
    let url = api_url ++ codes "/v1/device/enroll" in
    if leb 192 (length url) then none else some url

abbrev pub response_max : ℕ
response_max = 1024

-- What the device says of itself: the MAC address as text, CONFIG_IDF_TARGET and the version.
pub record Device : Type 0 where
  pub hardware_id : Bytes
  pub chip : Bytes
  pub fw_version : Bytes

abbrev pub request : Device → Bytes → Option Bytes → EnrollRequest
request device token name = record {
  token = token;
  hardware_id = device.hardware_id;
  platform = codes "esp32";
  chip = device.chip;
  fw_version = device.fw_version;
  name = name;
}

module _ (api : Platform) where
  open api use {World}

  pub record Credentials : Type 0 where
    pub world : World
    pub identity : EnrollResponse

  -- The three reads into an empty response.
  unfoldable pub read_stored : World → EspErr × EnrollResponse
  read_stored w =
      and_then
        (and_then (with_device_id no_response (api.get_str w key_device_id no_response.device_id))
          (λ r. with_password r (api.get_str w key_password r.password)))
        (λ r. with_mqtt_url r (api.get_str w key_mqtt_url r.mqtt_url))

  abbrev pub keep_stored : Credentials → EspErr × EnrollResponse → EspErr × Credentials
  keep_stored c (EspErr.esp_ok, stored) = (EspErr.esp_ok, record c { identity = stored })
  keep_stored c (ret, stored) = (not_found_of ret, c)

  abbrev pub load_opened : Credentials → EspErr × World → EspErr × Credentials
  load_opened c (EspErr.esp_ok, w) = keep_stored (record c { world = api.close w }) (read_stored w)
  load_opened c (ret, w) = (not_found_of ret, record c { world = w })

  unfoldable pub load : Credentials → EspErr × Credentials
  load c = load_opened c (api.open_read c.world)

  -- The three writes and the commit.
  unfoldable pub write_strings : World → EnrollResponse → EspErr × World
  write_strings w resp =
      and_then
        (and_then
          (and_then (api.set_str w key_device_id (c_string resp.device_id))
            (λ v. api.set_str v key_password (c_string resp.password)))
          (λ v. api.set_str v key_mqtt_url (c_string resp.mqtt_url)))
        api.commit

  abbrev pub closed : EspErr × World → EspErr × World
  closed (ret, w) = (ret, api.close w)

  unfoldable pub save : World → EnrollResponse → EspErr × World
  save w resp = and_then (api.open_write w) (λ v. closed (write_strings v resp))

  abbrev pub erase_opened : Credentials → EspErr × World → EspErr × Credentials
  erase_opened c (EspErr.esp_ok, w) =
      let r = closed (and_then (api.erase_all w) api.commit) in
      (r.0, record { world = r.1; identity = no_response })
  erase_opened c (EspErr.nvs_not_found, w) = (EspErr.esp_ok, record c { world = w })
  erase_opened c (ret, w) = (ret, record c { world = w })

  unfoldable pub erase : Credentials → EspErr × Credentials
  erase c = erase_opened c (api.open_write c.world)

  -- The loop that reads the body, with `room` bytes left in the buffer. A round reads one byte at least, so
  -- the room is enough fuel.
  unfoldable pub read_body : ℕ → ℕ → World → Bytes × World
  read_body zero room w = ([], w)
  read_body (suc fuel) zero w = ([], w)
  read_body (suc fuel) (suc room) w =
      let r = api.read w (suc room) in
      let later = read_body fuel (suc room - length r.0) r.1 in
      if length r.0 == 0 then r else (r.0 ++ later.0, later.1)

  -- The answer of the platform.
  pub record Exchange : Type 0 where
    pub ret : EspErr
    pub status : ℕ
    pub body : Bytes
    pub world : World

  abbrev pub failed : EspErr → World → Exchange
  failed ret w = record { ret = ret; status = 0; body = []; world = api.http_close w }

  -- Behind `esp_http_client_open`.
  unfoldable pub exchange_opened : Bytes → EspErr × World → Exchange
  exchange_opened body (EspErr.esp_ok, w) =
      let sent = api.send w body in
      let headers = api.fetch_headers sent.1 in
      let answer = read_body (response_max - 1) (response_max - 1) headers.1 in
      if not sent.0
      then failed EspErr.esp_fail sent.1
      else if not headers.0
      then failed EspErr.esp_fail headers.1
      else record {
        ret = EspErr.esp_ok;
        status = api.status_code headers.1;
        body = answer.0;
        world = api.http_close answer.1;
      }
  exchange_opened body (ret, w) = failed ret w

  abbrev pub status_error : ℕ → EspErr
  status_error status = if status == 401 then EspErr.invalid_state else EspErr.esp_fail

  -- What `save` said of the response.
  abbrev pub adopt : Credentials → EnrollResponse → EspErr × World → EspErr × Credentials
  adopt c resp (EspErr.esp_ok, w) = (EspErr.esp_ok, record { world = w; identity = resp })
  adopt c resp (ret, w) = (ret, record c { world = w })

  abbrev pub use_response : Credentials → World → EspErr × EnrollResponse → EspErr × Credentials
  use_response c w (EspErr.esp_ok, resp) = adopt c resp (save w resp)
  use_response c w (ret, resp) = (ret, record c { world = w })

  abbrev pub use_body : Tokeniser → Credentials → Exchange → EspErr × Credentials
  use_body jsmn c x =
      if not (x.status == 201)
      then (status_error x.status, record c { world = x.world })
      else use_response c x.world (decode_enroll_response jsmn x.body no_response)

  unfoldable pub use_answer : Tokeniser → Credentials → EspErr → Exchange → EspErr × Credentials
  use_answer jsmn c EspErr.esp_ok x = use_body jsmn c x
  use_answer jsmn c ret x = (ret, record c { world = x.world })

  -- With the address and the body of the request.
  unfoldable pub post :
      Tokeniser → Credentials → Bytes → EspErr × Option Bytes → EspErr × Credentials
  post jsmn c url (EspErr.esp_ok, some body) =
      let memory = api.malloc c.world response_max in
      let client = api.http_init memory.1 url in
      let x = exchange_opened body (api.http_open client.1 (length body)) in
      if not memory.0
      then (EspErr.no_mem, record c { world = memory.1 })
      else if not client.0
      then (EspErr.no_mem, record c { world = client.1 })
      else use_answer jsmn c x.ret x
  post jsmn c url (ret, body) = (ret, c)

  -- `body` is 320 bytes. Null pointers are `none`.
  unfoldable pub enroll :
      Tokeniser
      → Device
      → Credentials
      → Option Bytes
      → Option Bytes
      → Option Bytes
      → EspErr × Credentials
  enroll jsmn device c (some api_url) (some (t ∷ token)) name = elim (enroll_url api_url) [
    | none ↦ (EspErr.invalid_size, c)
    | some url ↦
        post jsmn c url
          (encode_enroll_request (request device (t ∷ token) name) (replicate 320 0) 320)
  ]
  enroll jsmn device c _ _ name = (EspErr.invalid_arg, c)
