-- ===== src/Codec.antt =====
-- `sc_codec`: the messages that the client sends (src/sc_codec.cpp lines 7 to 68, and the structs of
-- src/sc_messages.hpp). A pointer that the code does not test is a string; one that it tests is an
-- option.
pub mod Encoded
pub mod Decode
use esp_soulcloud_client.Prelude.{
  ℕ, ℤ, pos, negsuc, [], ◌∷◌, List, Bool, true, false, not, ◌&&◌, Option, none, some, Bytes, codes,
  length, ◌==◌, if◌then◌else◌,
}
use esp_soulcloud_client.Esp.{EspErr}
use esp_soulcloud_client.Json.Writer.{
  Writer, create, begin_object, end_object, add_str, add_int, add_uint, add_bool, add_hex, is_ok,
  text,
}

-- `sc_status_msg`.
pub record StatusMsg : Type 0 where
  pub birth : Bool
  pub uptime_ms : ℕ
  pub boot_id : ℕ
  pub reset_reason : ℤ
  pub fw_version : Bytes
  pub project : Bytes
  pub sdk_version : Bytes
  pub elf_sha256 : Option Bytes
  pub chip : Bytes
  pub heap_free : ℕ
  pub heap_min_free : ℕ

-- `sc_ota_event`.
pub record OtaEvent : Type 0 where
  pub task_id : Bytes
  pub state : Bytes
  pub progress : ℤ
  pub error : Option Bytes

-- `sc_enroll_request`.
pub record EnrollRequest : Type 0 where
  pub token : Bytes
  pub hardware_id : Bytes
  pub platform : Bytes
  pub chip : Bytes
  pub fw_version : Bytes
  pub name : Option Bytes

-- What is returned, and the bytes that `buf` and `out_len` give.
unfoldable pub finish : Writer → EspErr × Option Bytes
finish w = if is_ok w then (EspErr.esp_ok, some (text w)) else (EspErr.no_mem, none)

abbrev pub with_some : {A : Type 0} → Option A → (A → Writer → Writer) → Writer → Writer
with_some none add w = w
with_some (some a) add w = add a w

abbrev pub key : Bytes → Option Bytes
key k = some k

-- `encode_status`; the callback `extra` adds members of its own.
unfoldable pub encode_status :
    StatusMsg → Option (Writer → Writer) → Bytes → ℕ → EspErr × Option Bytes
encode_status msg extra buf cap =
    let w0 = begin_object (create (some buf) cap) none in
    let w1 = if msg.birth then add_bool w0 (key (codes "birth")) true else w0 in
    let w2 = add_uint w1 (key (codes "uptimeMs")) msg.uptime_ms in
    let w3 = add_uint w2 (key (codes "bootId")) msg.boot_id in
    let w4 = add_int w3 (key (codes "resetReason")) msg.reset_reason in
    let w5 = begin_object w4 (key (codes "fw")) in
    let w6 = add_str w5 (key (codes "version")) (some msg.fw_version) in
    let w7 = with_some msg.elf_sha256 (λ sha w. add_hex w (key (codes "elfSha256")) sha) w6 in
    let w8 = add_str w7 (key (codes "project")) (some msg.project) in
    let w9 = end_object (add_str w8 (key (codes "sdk")) (some msg.sdk_version)) in
    let w10 = add_str w9 (key (codes "chip")) (some msg.chip) in
    let w11 = begin_object w10 (key (codes "heap")) in
    let w12 =
      add_uint (add_uint w11 (key (codes "free")) msg.heap_free) (key (codes "minFree"))
        msg.heap_min_free in
    finish (end_object (with_some extra (λ add w. add w) (end_object w12)))

abbrev is_negative : ℤ → Bool
is_negative (pos n) = false
is_negative (negsuc n) = true

unfoldable pub encode_ota_event : OtaEvent → Bytes → ℕ → EspErr × Option Bytes
encode_ota_event evt buf cap =
    let w0 = begin_object (create (some buf) cap) none in
    let w1 = add_str w0 (key (codes "taskId")) (some evt.task_id) in
    let w2 = add_str w1 (key (codes "state")) (some evt.state) in
    let w3 =
      if is_negative evt.progress then w2 else add_int w2 (key (codes "progress")) evt.progress in
    let w4 = with_some evt.error (λ e w. add_str w (key (codes "error")) (some e)) w3 in
    finish (end_object w4)

abbrev is_named : Option Bytes → Bool
is_named none = false
is_named (some name) = not (length name == 0)

unfoldable pub encode_enroll_request : EnrollRequest → Bytes → ℕ → EspErr × Option Bytes
encode_enroll_request req buf cap =
    let w0 = begin_object (create (some buf) cap) none in
    let w1 = add_str w0 (key (codes "token")) (some req.token) in
    let w2 = add_str w1 (key (codes "hardwareId")) (some req.hardware_id) in
    let w3 = add_str w2 (key (codes "platform")) (some req.platform) in
    let w4 = add_str w3 (key (codes "chip")) (some req.chip) in
    let w5 = add_str w4 (key (codes "fwVersion")) (some req.fw_version) in
    let w6 = if is_named req.name then add_str w5 (key (codes "name")) req.name else w5 in
    finish (end_object w6)
