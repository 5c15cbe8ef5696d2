-- ===== src/Esp.antt =====
-- `esp_err_t`: the codes of esp_err.h that the client names.
pub data EspErr : Type 0 where
  esp_ok esp_fail no_mem invalid_arg invalid_state invalid_size not_found timeout : EspErr
  invalid_response invalid_crc nvs_not_found : EspErr
