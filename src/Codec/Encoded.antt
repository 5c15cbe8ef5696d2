-- ===== src/Codec/Encoded.antt =====
-- Each message that the codec encodes is one JSON value.
use esp_soulcloud_client.Prelude.{
  ℕ, ◌≤◌, ◌<◌, ℤ, pos, negsuc, ◌≡◌, refl, ap, ◌∙◌, Bool, true, false, Option, none, some, Bytes,
  codes, length, ltb, ◌==◌, if◌then◌else◌, inl, inr, Bool-cases, Option-cases, arith,
}
use esp_soulcloud_client.Codec.{
  StatusMsg, OtaEvent, EnrollRequest, finish, encode_status, encode_ota_event,
  encode_enroll_request,
}
use esp_soulcloud_client.Esp.{EspErr}
use esp_soulcloud_client.Json.Shows.Contract.{run-is_ok, run-text}
use esp_soulcloud_client.Json.Value.{
  Value, Fields, end, field, bool, int, uint, str, hex, obj, print, height, ops_of,
}
use esp_soulcloud_client.Json.Writer
use esp_soulcloud_client.Json.Writer.{Writer, create, is_ok, text}
use esp_soulcloud_client.Json.Written.{run-print}

-- What encoding a value to `cap` bytes promises: its compact text where that and a NUL fit.
abbrev pub promised : Value → ℕ → EspErr × Option Bytes
promised v cap =
    if ltb (length (print v)) cap then (EspErr.esp_ok, some (print v)) else (EspErr.no_mem, none)

-- The values of the messages.
abbrev pub error_field : Option Bytes → Fields
error_field none = end
error_field (some e) = field (codes "error") (str e) end

abbrev pub progress_field : ℤ → Fields → Fields
progress_field (pos n) fs = field (codes "progress") (int (pos n)) fs
progress_field (negsuc n) fs = fs

abbrev pub ota_event_value : OtaEvent → Value
ota_event_value evt = obj (
    field (codes "taskId") (str evt.task_id)
      (field (codes "state") (str evt.state) (progress_field evt.progress (error_field evt.error))))

abbrev pub name_field : Option Bytes → Fields
name_field none = end
name_field (some name) = if length name == 0 then end else field (codes "name") (str name) end

abbrev pub enroll_value : EnrollRequest → Value
enroll_value req = obj (
    field (codes "token") (str req.token) (
      field (codes "hardwareId") (str req.hardware_id) (
        field (codes "platform") (str req.platform) (
          field (codes "chip") (str req.chip)
            (field (codes "fwVersion") (str req.fw_version) (name_field req.name))))))

abbrev pub birth_field : Bool → Fields → Fields
birth_field true fs = field (codes "birth") (bool true) fs
birth_field false fs = fs

abbrev pub elf_field : Option Bytes → Fields → Fields
elf_field none fs = fs
elf_field (some sha) fs = field (codes "elfSha256") (hex sha) fs

abbrev pub status_value : StatusMsg → Value
status_value msg =
    let fw = obj (
      field (codes "version") (str msg.fw_version) (
        elf_field msg.elf_sha256 (
          field (codes "project") (str msg.project)
            (field (codes "sdk") (str msg.sdk_version) end)))) in
    let heap = obj (
      field (codes "free") (uint msg.heap_free)
        (field (codes "minFree") (uint msg.heap_min_free) end)) in
    obj (
      birth_field msg.birth (
        field (codes "uptimeMs") (uint msg.uptime_ms) (
          field (codes "bootId") (uint msg.boot_id) (
            field (codes "resetReason") (int msg.reset_reason) (
              field (codes "fw") fw
                (field (codes "chip") (str msg.chip) (field (codes "heap") heap end)))))))

-- Writing a value of at most 31 nested containers to a buffer of `cap` bytes, one at least: the buffer
-- holds the compact text of the value where that and a NUL fit, and the message is refused with
-- ESP_ERR_NO_MEM where they do not.
pub finish-promised :
    (v : Value) (buf : Bytes) (cap : ℕ)
    → height v ≤ 31
    → length buf ≡ cap
    → 0 < cap
    → finish (Writer.run (create (some buf) cap) (ops_of none v)) ≡ promised v cap
unfolding finish
finish-promised v buf cap h size room =
    let (t, b, d) = run-print v h in
    let ok = run-is_ok buf cap (ops_of none v) size room in
    elim (Bool-cases (is_ok (Writer.run (create (some buf) cap) (ops_of none v)))) [
      | inl good ↦
          (let shown = run-text buf cap (ops_of none v) size room good in
            let n = ap length t in
            let fits : ltb (length (print v)) cap ≡ true = ground (arith, (ok.0 good).1, n) in
            rw (good, fits) (ap (λ x. (EspErr.esp_ok, some x)) (shown.0 ∙ t)))
      | inr bad ↦ elim (Bool-cases (ltb (length (print v)) cap)) [
        | inl fits ↦
            (let n = ap length t in
              let good = ok.1 (b, ground (arith, n, fits)) in absurd (ground (arith, good, bad)))
        | inr long ↦ rw (bad, long) refl
      ]
    ]

-- The calls of an encoder are those that write the value.
abbrev written : Value → Bytes → ℕ → EspErr × Option Bytes
written v buf cap = finish (Writer.run (create (some buf) cap) (ops_of none v))

ota_event_written :
    (task_id state : Bytes) (progress : ℤ) (error : Option Bytes) (buf : Bytes) (cap : ℕ)
    → let evt : OtaEvent = record {
      task_id = task_id;
      state = state;
      progress = progress;
      error = error;
    } in
      encode_ota_event evt buf cap ≡ written (ota_event_value evt) buf cap
unfolding encode_ota_event Writer.run Writer.apply ops_of
ota_event_written task_id state (pos n) none buf n_bytes = refl
ota_event_written task_id state (pos n) (some e) buf n_bytes = refl
ota_event_written task_id state (negsuc n) none buf n_bytes = refl
ota_event_written task_id state (negsuc n) (some e) buf n_bytes = refl

ota_event_low :
    (progress : ℤ) (error : Option Bytes) (task_id state : Bytes)
    → let evt : OtaEvent = record {
      task_id = task_id;
      state = state;
      progress = progress;
      error = error;
    } in
      height (ota_event_value evt) ≤ 31
unfolding height
ota_event_low (pos n) none task_id state = omega arith
ota_event_low (pos n) (some e) task_id state = omega arith
ota_event_low (negsuc n) none task_id state = omega arith
ota_event_low (negsuc n) (some e) task_id state = omega arith

-- An update event is encoded as its JSON object, where the buffer holds the text and a NUL, and is
-- refused with ESP_ERR_NO_MEM where it does not.
pub encode_ota_event-promised :
    (evt : OtaEvent) (buf : Bytes) (cap : ℕ)
    → length buf ≡ cap
    → 0 < cap
    → encode_ota_event evt buf cap ≡ promised (ota_event_value evt) cap
encode_ota_event-promised evt buf cap size room =
    ota_event_written evt.task_id evt.state evt.progress evt.error buf cap
    ∙ finish-promised (ota_event_value evt) buf cap
        (ota_event_low evt.progress evt.error evt.task_id evt.state) size room

enroll_written :
    (req : EnrollRequest) (buf : Bytes) (cap : ℕ)
    → encode_enroll_request req buf cap ≡ written (enroll_value req) buf cap
unfolding encode_enroll_request Writer.run Writer.apply ops_of
enroll_written req buf cap = elim (Option-cases req.name) [
  | inl none_given ↦ rw none_given refl
  | inr (name, given) ↦ elim (Bool-cases (length name == 0)) [
    | inl empty ↦ rw (given, empty) refl
    | inr some_name ↦ rw (given, some_name) refl
  ]
]

enroll_low : (req : EnrollRequest) → height (enroll_value req) ≤ 31
unfolding height
enroll_low req = elim (Option-cases req.name) [
  | inl none_given ↦ rw none_given (omega arith)
  | inr (name, given) ↦ elim (Bool-cases (length name == 0)) [
    | inl empty ↦ rw (given, empty) (omega arith)
    | inr some_name ↦ rw (given, some_name) (omega arith)
  ]
]

-- An enrollment request is encoded as its JSON object, without a name that is missing or empty, where
-- the buffer holds the text and a NUL, and is refused with ESP_ERR_NO_MEM where it does not.
pub encode_enroll_request-promised :
    (req : EnrollRequest) (buf : Bytes) (cap : ℕ)
    → length buf ≡ cap
    → 0 < cap
    → encode_enroll_request req buf cap ≡ promised (enroll_value req) cap
encode_enroll_request-promised req buf cap size room =
    enroll_written req buf cap
    ∙ finish-promised (enroll_value req) buf cap (enroll_low req) size room

status_written :
    (msg : StatusMsg) (buf : Bytes) (cap : ℕ)
    → encode_status msg none buf cap ≡ written (status_value msg) buf cap
unfolding encode_status Writer.run Writer.apply ops_of
status_written msg buf cap = elim (Option-cases msg.elf_sha256) [
  | inl no_elf ↦ elim (Bool-cases msg.birth) [
    | inl b ↦ rw (no_elf, b) refl
    | inr b ↦ rw (no_elf, b) refl
  ]
  | inr (sha, elf) ↦ elim (Bool-cases msg.birth) [
    | inl b ↦ rw (elf, b) refl
    | inr b ↦ rw (elf, b) refl
  ]
]

status_low : (msg : StatusMsg) → height (status_value msg) ≤ 31
unfolding height
status_low msg = elim (Option-cases msg.elf_sha256) [
  | inl no_elf ↦ elim (Bool-cases msg.birth) [
    | inl b ↦ rw (no_elf, b) (omega arith)
    | inr b ↦ rw (no_elf, b) (omega arith)
  ]
  | inr (sha, elf) ↦ elim (Bool-cases msg.birth) [
    | inl b ↦ rw (elf, b) (omega arith)
    | inr b ↦ rw (elf, b) (omega arith)
  ]
]

-- A status message to which no callback adds members is encoded as its JSON object, where the buffer
-- holds the text and a NUL, and is refused with ESP_ERR_NO_MEM where it does not.
pub encode_status-promised :
    (msg : StatusMsg) (buf : Bytes) (cap : ℕ)
    → length buf ≡ cap
    → 0 < cap
    → encode_status msg none buf cap ≡ promised (status_value msg) cap
encode_status-promised msg buf cap size room =
    status_written msg buf cap
    ∙ finish-promised (status_value msg) buf cap (status_low msg) size room
