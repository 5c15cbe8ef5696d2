-- ===== src/Tests/Answering.antt =====
-- A concrete method that answers with one member, and a request for it.
use esp_soulcloud_client.Prelude.{
  ◌<◌, ◌≡◌, refl, subst, List, [], ◌∷◌, true, Option, none, some, false, Bytes, codes, length,
  replicate, equal, pos, arith,
}
use esp_soulcloud_client.Client.Methods.{
  DeviceInfo, Parts, MethodTable, register_builtin_methods, add_methods,
}
use esp_soulcloud_client.Client.Methods.Answers.{builtin-IsAnswer}
use esp_soulcloud_client.Codec.Decode.{no_params}
use esp_soulcloud_client.Esp.{EspErr}
use esp_soulcloud_client.Json.Reader.{Reader}
use esp_soulcloud_client.Json.Token.{parsed, object}
use esp_soulcloud_client.Json.Value.{Fields, end, field, bool, ops_of_fields, height_fields}
use esp_soulcloud_client.Rpc.Handle.{Handler, Setup, handle}
use esp_soulcloud_client.Rpc.Handle.Body.{WritesFields, IsAnswer, handle-IsAnswer}
use esp_soulcloud_client.Rpc.Methods.{MethodEntry, find_method}
use esp_soulcloud_client.Rpc.Slots.{Slot, empty_slot}

abbrev pong : Fields
pong = field (codes "pong") (bool true) end

abbrev ping : Handler
ping method params = record { ops = ops_of_fields pong; failure = none; ret = EspErr.esp_ok }

ping-WritesFields : (method : Bytes) (params : Reader) → WritesFields (ping method params)
unfolding height_fields
ping-WritesFields method params = (pong, λ w. refl, omega arith)

abbrev ping_entry : MethodEntry Handler
ping_entry = record { name = codes "ping"; handler = ping }

abbrev methods : List (Option (MethodEntry Handler))
methods = none ∷ some ping_entry ∷ []

abbrev setup : Setup
setup = record {
  payload_max = 4;
  result_max = 700;
  jsmn = λ json max_tokens. parsed (record { type = object; start = 0; stop = 2; size = 0 } ∷ []);
  err_name = λ e. codes "ESP_FAIL";
}

named : (e : EspErr) → 0 < length (setup.err_name e)
named e = omega arith

only_ping :
    (entry : MethodEntry Handler)
    → find_method Handler (codes "ping") methods ≡ some entry
    → ping_entry ≡ entry
unfolding find_method equal
only_ping entry found = let same : some ping_entry ≡ some entry = found in cc

methods_write :
    (entry : MethodEntry Handler) (params : Reader)
    → find_method Handler (codes "ping") methods ≡ some entry
    → WritesFields (entry.handler (codes "ping") params)
methods_write entry params found =
    subst (λ (e : MethodEntry Handler). WritesFields (e.handler (codes "ping") params))
      (only_ping entry found) (ping-WritesFields (codes "ping") params)

abbrev slot : Slot
slot = record (empty_slot 4) { method = codes "ping" }

handle-IsAnswer_example : IsAnswer (handle setup methods (replicate 700 0) slot)
handle-IsAnswer_example =
    handle-IsAnswer setup methods (replicate 700 0) slot refl (omega arith) named methods_write

-- The table of the client with `ping` behind its methods, and its own parts.
abbrev device : DeviceInfo
device = record {
  project = codes "lamp";
  version = codes "1.0";
  sdk = codes "v5.5";
  date = codes "Jan  1 2025";
  time = codes "12:00:00";
  elf_sha256 = replicate 32 7;
  chip = codes "esp32s3";
  partition = codes "ota_0";
  uptime_us = 1500000;
  boot_id = 3;
  reset_reason = pos 1;
  heap_free = 100000;
  heap_min_free = 90000;
  heap_largest_block = 50000;
  psram_free = 0;
}

abbrev parts : Parts
parts = record {
  cmds = [];
  shell_out = replicate 16 0;
  shell_out_size = 16;
  start_once = λ us. EspErr.esp_ok;
  device = device;
  control = record { running = false; cancel_requested = false; params = no_params };
  created = true;
}

abbrev app_methods : List (Bytes × Handler)
app_methods = (codes "ping", ping) ∷ []

abbrev client_methods : MethodTable
client_methods = add_methods app_methods (register_builtin_methods parts (replicate 8 none)).1

abbrev info_slot : Slot
info_slot = record (empty_slot 4) { method = codes "info" }

builtin-IsAnswer_example : IsAnswer (handle setup client_methods (replicate 700 0) info_slot)
builtin-IsAnswer_example =
    builtin-IsAnswer parts setup 8 app_methods (replicate 700 0) info_slot (ping-WritesFields, tt)
      refl (omega arith) named
