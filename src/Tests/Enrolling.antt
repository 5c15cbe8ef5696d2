-- ===== src/Tests/Enrolling.antt =====
-- A concrete enrollment: a store without limits, and a platform that accepts the device.
use esp_soulcloud_client.Prelude.{
  ◌≡◌, ◌≢◌, refl, ap, ◌∙◌, [], true, none, some, Bytes, codes, length-take_le, take, drop, c_string,
  equal, equal_iff, if◌then◌else◌, inl, inr, Bool-cases,
}
use esp_soulcloud_client.Esp.{EspErr}
use esp_soulcloud_client.Codec.Decode.{no_response}
use esp_soulcloud_client.Credentials.{Platform, Credentials, Device, enroll}
use esp_soulcloud_client.Credentials.Enrolled.{Enrolled, enroll-Enrolled}
use esp_soulcloud_client.Json.Token.{Tokeniser, parsed}
use esp_soulcloud_client.Tests.Documents.{response_json, response_tokens}

-- The strings in NVS, and what the server has still to send.
record Store : Type 0 where
  strings : Bytes → Bytes
  answer : Bytes

abbrev put_string : Store → Bytes → Bytes → Store
put_string w key value = record w {
  strings = λ other. if equal other key then value else w.strings other;
}

put_string_same : (w : Store) (key value : Bytes) → (put_string w key value).strings key ≡ value
put_string_same w key value = let same = (equal_iff key key).1 refl in rw same refl

put_string_other :
    (w : Store) (key other value : Bytes)
    → other ≢ key
    → (put_string w key value).strings other ≡ w.strings other
put_string_other w key other value ne = elim (Bool-cases (equal other key)) [
  | inl same ↦ absurd (ne ((equal_iff other key).0 same))
  | inr differs ↦ rw differs refl
]

abbrev platform : Platform
platform = record {
  World = Store;
  open_read = λ w. (EspErr.esp_ok, w);
  open_write = λ w. (EspErr.esp_ok, w);
  get_str = λ w key buf. (EspErr.esp_ok, w.strings key);
  set_str = λ w key value. (EspErr.esp_ok, put_string w key value);
  erase_all = λ w. (EspErr.esp_ok, record w { strings = λ key. [] });
  commit = λ w. (EspErr.esp_ok, w);
  close = λ w. w;
  malloc = λ w size. (true, w);
  http_init = λ w url. (true, w);
  http_open = λ w size. (EspErr.esp_ok, w);
  send = λ w body. (true, w);
  fetch_headers = λ w. (true, w);
  status_code = λ w. 201;
  read = λ w want. (take want w.answer, record w { answer = drop want w.answer });
  http_close = λ w. w;
  read_fits = λ w want. length-take_le want w.answer;
  get-set =
      λ w key value buf ok text fits. (refl, ap c_string (put_string_same w key value) ∙ text);
  get-set_other = λ w key other value buf ok ne.
      ap (λ s. (EspErr.esp_ok, s)) (put_string_other w key other value ne);
  get-commit = λ w key buf. refl;
  get-close = λ w key buf. refl;
  get-open_read = λ w key buf. refl;
}

abbrev credentials : Credentials platform
credentials = record {
  world = record { strings = λ key. []; answer = response_json };
  identity = no_response;
}

abbrev jsmn : Tokeniser
jsmn json max_tokens = parsed response_tokens

abbrev device : Device
device = record {
  hardware_id = codes "02:00:00:00:00:01";
  chip = codes "esp32s3";
  fw_version = codes "1.0";
}

enroll-Enrolled_example :
    Enrolled platform credentials (
      enroll platform jsmn device credentials (some (codes "https://x")) (some (codes "pair")) none)
enroll-Enrolled_example =
    enroll-Enrolled platform jsmn device credentials (some (codes "https://x"))
      (some (codes "pair")) none
