-- ===== src/Client/Methods/Fields.antt =====
-- What the methods of the client write and change.
use esp_soulcloud_client.Prelude.{
  ℕ, ◌≤◌, ◌≡◌, ◌/◌, ◌++◌, refl, sym, ap, ◌⊎◌, inl, inr, List, [], ◌∷◌, Bool, true, false, not,
  Option, some, Bytes, codes, take, map, replicate, c_string, ℤ, if◌then◌else◌, if_cases, arith,
}
use esp_soulcloud_client.Esp.{EspErr}
use esp_soulcloud_client.Client.Methods.{
  Command, LogCall, DeviceInfo, Parts, Builtin, shell_method, reboot_method, info_method, info,
  log_config_method, ota_start_method, ota_cancel_method, handled_by, refused, done, run_outcome,
  shell_ops, shell, reboot, log_config_result, unchanged, log_config, start_result, start_decoded,
  ota_start, cancel_result, ota_cancel,
}
use esp_soulcloud_client.Client.Calls.{strings_of}
use esp_soulcloud_client.Codec.Decode.{LogResult, no_params, decode_log_config, decode_ota_params}
use esp_soulcloud_client.Codec.Decode.Tags.{decode_log_config-tags}
use esp_soulcloud_client.Json.Reader.{Reader, get_str}
use esp_soulcloud_client.Json.Page.{cut_fmt}
use esp_soulcloud_client.Json.Value.{
  Fields, end, field, bool, int, uint, str, hex, obj, ops_of_fields, height_fields,
}
use esp_soulcloud_client.Json.Writer.{Writer, adds_int, adds_str, adds_bool}
use esp_soulcloud_client.Json.Writer
use esp_soulcloud_client.Ota.{Params}
use esp_soulcloud_client.Ota.Control.{Control, start, cancel}
use esp_soulcloud_client.Rpc.Handle.{Handled}
use esp_soulcloud_client.Rpc.Handle.Body.{WritesFields}
use esp_soulcloud_client.Shell.{Entry, run}
use esp_soulcloud_client.Shell.Output.{ShellOut, open_out}

nothing_written : (h : Handled) → h.ops ≡ [] → WritesFields h
unfolding ops_of_fields height_fields
nothing_written h e = (end, λ w. ap (Writer.run w) e, omega arith)

truncated_field : Bool → Fields
truncated_field full = if full then field (codes "truncated") (bool true) end else end

truncated_written :
    (full : Bool)
    → (ops_of_fields (truncated_field full)
        ≡ (if full then adds_bool (some (codes "truncated")) true ∷ [] else []))
      × (height_fields (truncated_field full) ≤ 29)
unfolding truncated_field ops_of_fields height_fields
truncated_written true = (refl, omega arith)
truncated_written false = (refl, omega arith)

shell_ops-WritesFields : (r : ℤ × ShellOut) → WritesFields (done (shell_ops r))
unfolding ops_of_fields height_fields
shell_ops-WritesFields (code, out) =
    let (same, low) = truncated_written out.full in
    let output = take out.pos out.buf in
    (
      field (codes "code") (int code)
          (field (codes "output") (str output) (truncated_field out.full)),
      λ w.
          ap
            (λ ops. Writer.run w (
              adds_int (some (codes "code")) code
              ∷ adds_str (some (codes "output")) (some output)
              ∷ ops))
            (sym same),
      omega (arith, low),
    )

shell-WritesFields :
    (cmds : List (Option (Entry Command))) (shell_out : Bytes) (size : ℕ) (params : Reader)
    → WritesFields (shell cmds shell_out size params)
unfolding shell
shell-WritesFields cmds shell_out size params =
    let line = get_str params (some 0) (codes "line") 520 (replicate 520 0) in
    if_cases WritesFields (not line.0)
      (λ _.
        nothing_written
          (refused (codes "params.line must be a string of at most 519 bytes") EspErr.invalid_arg)
          refl)
      (λ _.
        shell_ops-WritesFields
          (run_outcome (open_out shell_out size) (run Command cmds (c_string line.1))))

abbrev heap_fields : DeviceInfo → Fields
heap_fields d = field (codes "free") (uint d.heap_free) (
    field (codes "minFree") (uint d.heap_min_free) (
      field (codes "largestBlock") (uint d.heap_largest_block)
        (field (codes "psramFree") (uint d.psram_free) end)))

abbrev info_fields : DeviceInfo → Fields
info_fields d = field (codes "project") (str d.project) (
    field (codes "version") (str d.version) (
      field (codes "sdk") (str d.sdk) (
        field (codes "buildTime") (str (cut_fmt (d.date ++ (codes " " ++ d.time)))) (
          field (codes "elfSha256") (hex d.elf_sha256) (
            field (codes "chip") (str d.chip) (
              field (codes "partition") (str d.partition) (
                field (codes "uptimeMs") (uint (d.uptime_us / 1000)) (
                  field (codes "bootId") (uint d.boot_id) (
                    field (codes "resetReason") (int d.reset_reason)
                      (field (codes "heap") (obj (heap_fields d)) end))))))))))

info-WritesFields : (d : DeviceInfo) → WritesFields (info d)
unfolding info ops_of_fields height_fields Writer.run Writer.apply Writer.add_fmt Writer.add_str
info-WritesFields d = (info_fields d, λ w. refl, omega arith)

log_config-WritesFields : (r : LogResult) → WritesFields (log_config_result r).0
log_config-WritesFields ((EspErr.esp_ok, cfg), tags) = nothing_written (done []) refl
log_config-WritesFields ((_, cfg), tags) =
    nothing_written (refused (codes "bad log.config params") EspErr.invalid_arg) refl

start_result-WritesFields : (r : EspErr × Control) → WritesFields (start_result r).0
start_result-WritesFields (EspErr.invalid_state, c) =
    nothing_written (refused (codes "an update is already running") EspErr.invalid_state) refl
start_result-WritesFields (_, c) = nothing_written (done []) refl

start_decoded-WritesFields :
    (c : Control) (created : Bool) (r : EspErr × Params)
    → WritesFields (start_decoded c created r).0
start_decoded-WritesFields c created (EspErr.esp_ok, params) =
    start_result-WritesFields (start created (strings_of params) c)
start_decoded-WritesFields c created (_, params) =
    nothing_written (refused (codes "bad ota.start params") EspErr.invalid_arg) refl

cancel_result-WritesFields : (r : EspErr × Control) → WritesFields (cancel_result r).0
cancel_result-WritesFields (EspErr.esp_ok, c) = nothing_written (done []) refl
cancel_result-WritesFields (_, c) =
    nothing_written (refused (codes "no such update running") EspErr.not_found) refl

-- For any commands, parts and parameters: the calls that the methods of the client make on the result
-- write members of an object, less than 30 deep.
pub handled_by-WritesFields :
    (parts : Parts) (method : Builtin) (params : Reader)
    → WritesFields (handled_by parts method params)
unfolding handled_by reboot log_config ota_start ota_cancel
handled_by-WritesFields parts shell_method params =
    shell-WritesFields parts.cmds parts.shell_out parts.shell_out_size params
handled_by-WritesFields parts reboot_method params =
    nothing_written (reboot parts.start_once params) refl
handled_by-WritesFields parts info_method params = info-WritesFields parts.device
handled_by-WritesFields parts log_config_method params =
    log_config-WritesFields (decode_log_config params unchanged)
handled_by-WritesFields parts ota_start_method params =
    start_decoded-WritesFields parts.control parts.created
      (decode_ota_params params (some 0) no_params)
handled_by-WritesFields parts ota_cancel_method params = cancel_result-WritesFields (
    cancel (c_string (get_str params (some 0) (codes "taskId") 40 (replicate 40 0)).1)
      parts.control)

-- For any parameters: where `log.config` is refused, nothing of the logs was changed.
pub log_config-refused :
    (params : Reader) → ((log_config params).0.ret ≡ EspErr.esp_ok) ⊎ ((log_config params).1 ≡ [])
unfolding log_config
log_config-refused params =
    go (decode_log_config params unchanged) (decode_log_config-tags params unchanged)
  where
    go :
        (r : LogResult)
        → (r.0.0 ≡ EspErr.esp_ok) ⊎ (r.1 ≡ [])
        → ((log_config_result r).0.ret ≡ EspErr.esp_ok) ⊎ ((log_config_result r).1 ≡ [])
    go ((EspErr.esp_ok, cfg), tags) h = inl refl
    go ((_, cfg), tags) (inl e) = absurd (ground (arith, e))
    go ((_, cfg), tags) (inr e) = inr (ap (λ xs. map LogCall.sets_tag xs) e)
