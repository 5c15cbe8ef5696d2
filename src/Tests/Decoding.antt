-- ===== src/Tests/Decoding.antt =====
-- Concrete parameters of updates and of the logs, and rounds of the request task.
use esp_soulcloud_client.Prelude.{
  ◌+◌, ◌%◌, ◌^◌, ◌≡◌, ◌⊎◌, refl, [], ◌∷◌, true, false, some, codes, leb, equal, arith,
}
use esp_soulcloud_client.Esp.{EspErr}
use esp_soulcloud_client.Client.{
  Bits, no_bits, Round, Signal, Task, after, report_due, run_round, signal_all, set_bits,
}
use esp_soulcloud_client.Client.Methods.{sets_tag, sets_level, log_config}
use esp_soulcloud_client.Client.Methods.Fields.{log_config-refused}
use esp_soulcloud_client.Client.Rounds.{report_due-after, told, run_round-told_both}
use esp_soulcloud_client.Codec.Decode.{
  no_params, decode_ota_params, level_in, decode_log_config, decode_flags, decode_tags, passes,
  pass, read_member,
}
use esp_soulcloud_client.Codec.Decode.Update.{IsUpdate, decode_ota_params-IsUpdate}
use esp_soulcloud_client.Json.Reader.{
  get_str, get_bool, find, find_loop, str_at, read_text, is_object, child_count, skip, skip_loop,
  key_equals,
}
use esp_soulcloud_client.Json.Unescape.{unescape, next_unit, emit}
use esp_soulcloud_client.Tests.Documents.{update_doc, levels_doc}

decode_ota_params-IsUpdate_example :
    (let r = decode_ota_params update_doc (some 0) no_params in
      ((r.0 ≡ EspErr.esp_ok) × IsUpdate update_doc (some 0) r.1)
      ⊎ ((r.0 ≡ EspErr.invalid_arg) × (r.1.size ≡ 0) × (r.1.version ≡ no_params.version)))
decode_ota_params-IsUpdate_example = decode_ota_params-IsUpdate update_doc (some 0) no_params

log_config-refused_example :
    ((log_config levels_doc).0.ret ≡ EspErr.esp_ok) ⊎ ((log_config levels_doc).1 ≡ [])
log_config-refused_example = log_config-refused levels_doc

-- The tag's level is set first, and the level of all tags behind it.
log_config_runs :
    (log_config levels_doc).1
    ≡ sets_tag (record { tag = codes "wifi"; level = 2 }) ∷ sets_level 3 ∷ []
unfolding log_config decode_log_config decode_flags decode_tags passes pass read_member level_in
    get_str get_bool find find_loop str_at read_text is_object child_count skip skip_loop key_equals
    unescape next_unit emit equal
log_config_runs = refl

-- Ten ticks before the tick count wraps around.
report_due-after_example :
    report_due (after 4294967286 100) ((4294967286 + 100) % 2 ^ 32) ≡ leb 100 100
report_due-after_example =
    report_due-after 4294967286 100 100 (omega arith) (omega arith) (omega arith)

abbrev task : Task
task = record { next_report = 100; first_connection = false; has_callback = true }

abbrev both_bits : Bits
both_bits = record { request = false; connected = true; disconnected = true; report_status = false }

abbrev round : Round
round = record {
  bits = both_bits;
  ticks_connected = 10;
  ticks = 10;
  ticks_reported = 10;
  is_connected = true;
}

round_bits : round.bits ≡ signal_all no_bits (Signal.connection false ∷ Signal.connection true ∷ [])
unfolding signal_all set_bits
round_bits = refl

run_round-told_both_example : told (run_round 100 task round).1 ≡ true ∷ false ∷ []
run_round-told_both_example = run_round-told_both 100 task round no_bits false refl round_bits
