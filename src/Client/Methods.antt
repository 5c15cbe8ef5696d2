-- ===== src/Client/Methods.antt =====
-- The methods that `register_builtin_methods` adds: what each does with a request and with the state of
-- the device (src/sc_client.cpp lines 110 to 195, and the end of `sc_shell::run`, src/sc_shell.cpp lines
-- 115 to 130).
pub mod Fields
pub mod Answers
use esp_soulcloud_client.Prelude.{
  ℕ, zero, suc, ◌+◌, ◌*◌, ◌/◌, List, [], ◌∷◌, ◌++◌, Bool, true, false, not, Option, none, some,
  Bytes, codes, length, take, map, replicate, c_string, ℤ, pos, negsuc, ltb, if◌then◌else◌,
}
use esp_soulcloud_client.Esp.{EspErr}
use esp_soulcloud_client.Client.Calls.{strings_of}
use esp_soulcloud_client.Codec.Decode.{
  LogConfig, TagLevel, no_params, decode_log_config, decode_ota_params,
}
use esp_soulcloud_client.Json.Reader.{Reader, get_str, get_int}
use esp_soulcloud_client.Json.Writer.{
  Op, begins_object, ends_object, adds_int, adds_uint, adds_str, adds_fmt, adds_hex, adds_bool,
}
use esp_soulcloud_client.Ota.{Params}
use esp_soulcloud_client.Ota.Control.{Control, start, cancel}
use esp_soulcloud_client.Rpc.Handle.{Handled, Handler}
use esp_soulcloud_client.Rpc.Methods.{MethodEntry, add_method}
use esp_soulcloud_client.Shell.{Entry, Outcome, nothing, unknown, runs, run}
use esp_soulcloud_client.Shell.Output.{ShellOut, open_out, printf}

abbrev pub refused : Bytes → EspErr → Handled
refused message ret = record { ops = []; failure = some message; ret = ret }

abbrev pub done : List Op → Handled
done ops = record { ops = ops; failure = none; ret = EspErr.esp_ok }

-- A command, with its exit code and what it prints.
abbrev pub Command : Type 0
Command = List Bytes → ShellOut → ℤ × ShellOut

-- `sc_shell::run` behind the choice of the command.
unfoldable pub run_outcome : ShellOut → Outcome Command → ℤ × ShellOut
run_outcome out nothing = (pos 0, out)
run_outcome out (unknown word) = (
  pos 127,
  printf out (some (codes "Unknown command \"" ++ (word ++ codes "\"; try \"help\"\n"))),
)
run_outcome out (runs entry argv) = entry.handler argv out

abbrev pub shell_ops : ℤ × ShellOut → List Op
shell_ops (code, out) =
    adds_int (some (codes "code")) code
    ∷ adds_str (some (codes "output")) (some (take out.pos out.buf))
    ∷ (if out.full then adds_bool (some (codes "truncated")) true ∷ [] else [])

-- `shell`, over the memory `shell_out` of `size` bytes.
unfoldable pub shell : List (Option (Entry Command)) → Bytes → ℕ → Reader → Handled
shell cmds shell_out size params =
    let line = get_str params (some 0) (codes "line") 520 (replicate 520 0) in
    if not line.0
    then refused (codes "params.line must be a string of at most 519 bytes") EspErr.invalid_arg
    else done
        (shell_ops (run_outcome (open_out shell_out size) (run Command cmds (c_string line.1))))

-- The delay of `reboot` in milliseconds.
unfoldable pub reboot_delay : Option ℤ → ℕ
reboot_delay none = 500
reboot_delay (some (pos n)) = if ltb n 200 then 200 else n
reboot_delay (some (negsuc n)) = 200

-- `reboot`; `start_once` is `esp_timer_start_once` on the restart timer, in microseconds. Where the
-- product is above INT64_MAX, the source overflows; here it does not.
unfoldable pub reboot : (ℕ → EspErr) → Reader → Handled
reboot start_once params = record {
  ops = [];
  failure = none;
  ret = start_once (reboot_delay (get_int params (some 0) (codes "delayMs")) * 1000);
}

-- What ESP-IDF says of the firmware, the chip and the memory, and the boot id. The running partition is
-- there, and the clock has not gone below zero.
pub record DeviceInfo : Type 0 where
  pub project : Bytes
  pub version : Bytes
  pub sdk : Bytes
  pub date : Bytes
  pub time : Bytes
  pub elf_sha256 : Bytes
  pub chip : Bytes
  pub partition : Bytes
  pub uptime_us : ℕ
  pub boot_id : ℕ
  pub reset_reason : ℤ
  pub heap_free : ℕ
  pub heap_min_free : ℕ
  pub heap_largest_block : ℕ
  pub psram_free : ℕ

-- `info`, whatever the parameters are.
unfoldable pub info : DeviceInfo → Handled
info d = done (
    adds_str (some (codes "project")) (some d.project)
    ∷ adds_str (some (codes "version")) (some d.version)
    ∷ adds_str (some (codes "sdk")) (some d.sdk)
    ∷ adds_fmt (some (codes "buildTime")) (some (d.date ++ (codes " " ++ d.time)))
    ∷ adds_hex (some (codes "elfSha256")) d.elf_sha256
    ∷ adds_str (some (codes "chip")) (some d.chip)
    ∷ adds_str (some (codes "partition")) (some d.partition)
    ∷ adds_uint (some (codes "uptimeMs")) (d.uptime_us / 1000)
    ∷ adds_uint (some (codes "bootId")) d.boot_id
    ∷ adds_int (some (codes "resetReason")) d.reset_reason
    ∷ begins_object (some (codes "heap"))
    ∷ adds_uint (some (codes "free")) d.heap_free
    ∷ adds_uint (some (codes "minFree")) d.heap_min_free
    ∷ adds_uint (some (codes "largestBlock")) d.heap_largest_block
    ∷ adds_uint (some (codes "psramFree")) d.psram_free
    ∷ ends_object
    ∷ [])

-- The calls that configure the logs: a tag's level, the level of all tags, and the two uplinks.
pub data LogCall : Type 0 where
  sets_tag : TagLevel → LogCall
  sets_level : ℕ → LogCall
  sets_text sets_bin : Bool → LogCall

abbrev pub when_some : {A : Type 0} → (A → LogCall) → Option A → List LogCall
when_some call none = []
when_some call (some a) = call a ∷ []

abbrev pub config_calls : LogConfig → List LogCall
config_calls cfg =
    when_some sets_level cfg.level ++ (when_some sets_text cfg.text ++ when_some sets_bin cfg.bin)

abbrev pub unchanged : LogConfig
unchanged = record { level = none; text = none; bin = none }

abbrev pub log_config_result : (EspErr × LogConfig) × List TagLevel → Handled × List LogCall
log_config_result ((EspErr.esp_ok, cfg), tags) = (done [], map sets_tag tags ++ config_calls cfg)
log_config_result ((_, cfg), tags) =
    (refused (codes "bad log.config params") EspErr.invalid_arg, map sets_tag tags)

-- `log.config`, with the calls that it makes in order.
unfoldable pub log_config : Reader → Handled × List LogCall
log_config params = log_config_result (decode_log_config params unchanged)

abbrev pub start_result : EspErr × Control → Handled × Control
start_result (EspErr.invalid_state, c) =
    (refused (codes "an update is already running") EspErr.invalid_state, c)
start_result (_, c) = (done [], c)

abbrev pub start_decoded : Control → Bool → EspErr × Params → Handled × Control
start_decoded c created (EspErr.esp_ok, params) = start_result (start created (strings_of params) c)
start_decoded c created (_, params) = (refused (codes "bad ota.start params") EspErr.invalid_arg, c)

-- `ota.start`, where `xTaskCreate` would give `created`.
unfoldable pub ota_start : Control → Bool → Reader → Handled × Control
ota_start c created params = start_decoded c created (decode_ota_params params (some 0) no_params)

abbrev pub cancel_result : EspErr × Control → Handled × Control
cancel_result (EspErr.esp_ok, c) = (done [], c)
cancel_result (_, c) = (refused (codes "no such update running") EspErr.not_found, c)

-- `ota.cancel`. What `get_str` returns is not looked at.
unfoldable pub ota_cancel : Control → Reader → Handled × Control
ota_cancel c params =
    let task_id = get_str params (some 0) (codes "taskId") 40 (replicate 40 0) in
    cancel_result (cancel (c_string task_id.1) c)

-- What the methods share, and what is outside the repository.
pub record Parts : Type 0 where
  pub cmds : List (Option (Entry Command))
  pub shell_out : Bytes
  pub shell_out_size : ℕ
  pub start_once : ℕ → EspErr
  pub device : DeviceInfo
  pub control : Control
  pub created : Bool

pub data Builtin : Type 0 where
  shell_method reboot_method info_method log_config_method ota_start_method ota_cancel_method :
      Builtin

-- What a method does with its `sc_rpc_call`.
unfoldable pub handled_by : Parts → Builtin → Reader → Handled
handled_by parts shell_method params = shell parts.cmds parts.shell_out parts.shell_out_size params
handled_by parts reboot_method params = reboot parts.start_once params
handled_by parts info_method params = info parts.device
handled_by parts log_config_method params = (log_config params).0
handled_by parts ota_start_method params = (ota_start parts.control parts.created params).0
handled_by parts ota_cancel_method params = (ota_cancel parts.control params).0

-- `register_builtin_methods` as far as the method table goes: each method is added unless one before it
-- was refused.
abbrev pub builtin_methods : List (Bytes × Builtin)
builtin_methods =
    (codes "shell", shell_method)
    ∷ (codes "reboot", reboot_method)
    ∷ (codes "info", info_method)
    ∷ (codes "log.config", log_config_method)
    ∷ (codes "ota.start", ota_start_method)
    ∷ (codes "ota.cancel", ota_cancel_method)
    ∷ []

abbrev pub MethodTable : Type 0
MethodTable = List (Option (MethodEntry Handler))

unfoldable pub add_builtins :
    Parts → List (Bytes × Builtin) → EspErr × MethodTable → EspErr × MethodTable
add_builtins parts [] r = r
add_builtins parts ((name, method) ∷ methods) (EspErr.esp_ok, table) =
    add_builtins parts methods
      (add_method Handler (some name) (some (λ _ params. handled_by parts method params)) table)
add_builtins parts (_ ∷ methods) r = r

unfoldable pub register_builtin_methods : Parts → MethodTable → EspErr × MethodTable
register_builtin_methods parts table = add_builtins parts builtin_methods (EspErr.esp_ok, table)

-- The application's calls of `sc_client::register_method`, in order.
unfoldable pub add_methods : List (Bytes × Handler) → MethodTable → MethodTable
add_methods [] table = table
add_methods ((name, handler) ∷ methods) table =
    add_methods methods (add_method Handler (some name) (some handler) table).1
