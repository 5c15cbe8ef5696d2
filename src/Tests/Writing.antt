-- ===== src/Tests/Writing.antt =====
-- Concrete texts that the writer and the codec produce.
use esp_soulcloud_client.Prelude.{
  ◌≤◌, ◌<◌, pos, negsuc, [], ◌∷◌, ◌++◌, List, ◌≡◌, refl, ◌↔◌, true, false, none, some, Bytes, codes,
  length, replicate, get_or, arith,
}
use esp_soulcloud_client.Codec.{finish, StatusMsg, OtaEvent, EnrollRequest, encode_status}
use esp_soulcloud_client.Codec.Encoded.{
  finish-promised, promised, status_value, encode_status-promised,
}
use esp_soulcloud_client.Json.Decimal.{signed_decimal}
use esp_soulcloud_client.Json.Page
use esp_soulcloud_client.Json.Page.{blank, escape_byte, escape, hex_text}
use esp_soulcloud_client.Json.Shows.Contract.{run-is_ok, run-text, run-IsSafe}
use esp_soulcloud_client.Json.Value.{
  Value, end, field, nil, cons, int, bool, null, obj, arr, print, height, ops_of,
}
use esp_soulcloud_client.Json.Writer
use esp_soulcloud_client.Json.Writer.{
  Op, begins_object, ends_object, adds_str, adds_bool, create, is_ok, text,
}

abbrev buffer : Bytes
buffer = replicate 32 7

abbrev calls : List Op
calls =
    begins_object none
    ∷ adds_str (some (codes "a")) (some (codes "x\"y"))
    ∷ adds_bool (some (codes "ok")) true
    ∷ ends_object
    ∷ []

run-is_ok_example :
    (is_ok (Writer.run (create (some buffer) 32) calls) ≡ true)
    ↔ (((Page.run blank calls).broken ≡ false) × (length (Page.run blank calls).text < 32))
run-is_ok_example = run-is_ok buffer 32 calls refl (omega arith)

calls_page : (Page.run blank calls).text ≡ codes "{\"a\":\"x\\\"y\",\"ok\":true}"
unfolding Page.run Page.apply escape escape_byte Writer.set_bit
calls_page = refl

calls_ok : is_ok (Writer.run (create (some buffer) 32) calls) ≡ true
unfolding Page.run Page.apply escape escape_byte Writer.set_bit
calls_ok = (run-is_ok buffer 32 calls refl (omega arith)).1 (refl, omega arith)

run-text_example :
    (text (Writer.run (create (some buffer) 32) calls) ≡ (Page.run blank calls).text)
    × ((Writer.run (create (some buffer) 32) calls).pos ≡ length (Page.run blank calls).text)
run-text_example = run-text buffer 32 calls refl (omega arith) calls_ok

run-IsSafe_example :
    (length (Writer.run (create (some buffer) 32) calls).buf ≡ 32)
    × ((Writer.run (create (some buffer) 32) calls).pos < 32)
    × (get_or
          (Writer.run (create (some buffer) 32) calls).buf
          (Writer.run (create (some buffer) 32) calls).pos
          1
        ≡ 0)
    × ((rest : Bytes) × ((Page.run blank calls).text
          ≡ text (Writer.run (create (some buffer) 32) calls) ++ rest))
run-IsSafe_example = run-IsSafe buffer 32 calls refl (omega arith)

abbrev sample : Value
sample = obj (
    field (codes "n") (int (negsuc 4))
      (field (codes "list") (arr (cons (bool true) (cons null nil))) end))

sample_text : print sample ≡ codes "{\"n\":-5,\"list\":[true,null]}"
unfolding print signed_decimal escape escape_byte
sample_text = refl

sample_low : height sample ≤ 31
unfolding height
sample_low = omega arith

finish-promised_example :
    finish (Writer.run (create (some buffer) 32) (ops_of none sample)) ≡ promised sample 32
finish-promised_example = finish-promised sample buffer 32 sample_low refl (omega arith)

abbrev ota_event : OtaEvent
ota_event = record {
  task_id = codes "t1";
  state = codes "failed";
  progress = negsuc 0;
  error = some (codes "timeout");
}

abbrev enroll_request : EnrollRequest
enroll_request = record {
  token = codes "tok";
  hardware_id = codes "aa";
  platform = codes "esp32";
  chip = codes "s3";
  fw_version = codes "1";
  name = some [];
}

abbrev status_msg : StatusMsg
status_msg = record {
  birth = true;
  uptime_ms = 10;
  boot_id = 3;
  reset_reason = pos 1;
  fw_version = codes "1";
  project = codes "p";
  sdk_version = codes "5";
  elf_sha256 = none;
  chip = codes "s3";
  heap_free = 5;
  heap_min_free = 4;
}

encode_status-promised_example :
    encode_status status_msg none (replicate 256 0) 256 ≡ promised (status_value status_msg) 256
encode_status-promised_example =
    encode_status-promised status_msg (replicate 256 0) 256 refl (omega arith)
