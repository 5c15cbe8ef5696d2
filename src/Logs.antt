-- ===== src/Logs.antt =====
-- `sc_log_uplink` (src/sc_log_uplink.cpp, src/sc_log_uplink.hpp): the on9log sink, the text hook and the
-- batches of the upload task.
pub mod Packets
pub mod Batches
pub mod Lines
use esp_soulcloud_client.Prelude.{
  ℕ, zero, suc, ◌≤◌, ◌+◌, ◌-◌, ◌%◌, ◌^◌, List, [], ◌∷◌, ◌++◌, ◌≡◌, Bool, true, false, not, ◌&&◌,
  ◌||◌, Option, none, some, Bytes, codes, length, take, set, copy_at, ltb, leb, ◌==◌, if◌then◌else◌,
  ℤ, pos,
}
use esp_soulcloud_client.Esp.{EspErr}
use esp_soulcloud_client.Json.Decimal.{decimal}

-- The no-split ring buffers of FreeRTOS. `acquire` is `xRingbufferSendAcquire` without waiting, with the
-- memory that it gives; `complete` is `xRingbufferSendComplete` of that memory; `send` is
-- `xRingbufferSend` without waiting. Each is `none` where there is no room.
pub record Rings : Type 1 where
  pub Ring : Type 0
  pub acquire : Ring → ℕ → Option (Bytes × Ring)
  pub complete : Ring → Bytes → Ring
  pub send : Ring → Bytes → Option Ring
  pub items : Ring → List Bytes
  pub acquire_size :
      (r r' : Ring) (n : ℕ) (memory : Bytes) → acquire r n ≡ some (memory, r') → length memory ≡ n
  pub items-acquire :
      (r r' : Ring) (n : ℕ) (memory : Bytes) → acquire r n ≡ some (memory, r') → items r' ≡ items r
  pub items-complete : (r : Ring) (item : Bytes) → items (complete r item) ≡ items r ++ item ∷ []
  pub items-send :
      (r r' : Ring) (item : Bytes) → send r item ≡ some r' → items r' ≡ items r ++ item ∷ []

-- A counter of 32 bits.
abbrev pub add_one : ℕ → ℕ
add_one n = (n + 1) % 2 ^ 32

-- The size of `on9log_packet_header_t` and its field `payload_len`, which on9log declares.
pub record PacketFormat : Type 0 where
  pub header_size : ℕ
  pub payload_len : Bytes → ℕ

abbrev pub min : ℕ → ℕ → ℕ
min a b = if ltb a b then a else b

-- The bytes of `line` that are sent, of a formatted text of one byte at least. `vsnprintf` writes at
-- most `line_max - 1` of them.
unfoldable pub text_item : ℕ → Bytes → Bytes
text_item line_max text =
    if ltb (length text) line_max
    then text
    else set (take (line_max - 1) text) (line_max - 1 - 1) 10

module _ (api : Rings) where
  -- `sink_item` with `sink_item_pos`; its memory is as long as `sink_item_len`.
  pub record Item : Type 0 where
    pub memory : Bytes
    pub pos : ℕ

  pub record Sink : Type 0 where
    pub bin_ring : api.Ring
    pub bin_enabled : Bool
    pub bin_dropped : ℕ
    pub item : Option Item

  -- `sink_start`, with the header where it is not null. The lock that it takes is given by `sink_end`.
  unfoldable pub sink_start : PacketFormat → Option Bytes → Sink → Sink
  sink_start format none s = record s { item = none }
  sink_start format (some header) s =
      if not (length header == format.header_size) || not s.bin_enabled
      then record s { item = none }
      else elim (api.acquire s.bin_ring (length header + format.payload_len header)) [
        | none ↦ record s { item = none; bin_dropped = add_one s.bin_dropped }
        | some (memory, ring) ↦ record s {
          bin_ring = ring;
          item = some (record { memory = copy_at memory 0 header; pos = length header });
        }
      ]

  unfoldable pub put_payload : Bytes → Item → Item
  put_payload payload item =
      let copy_len = min (length payload) (length item.memory - item.pos) in
      record {
        memory = copy_at item.memory item.pos (take copy_len payload);
        pos = item.pos + copy_len;
      }

  unfoldable pub sink_payload : Bytes → Sink → Sink
  sink_payload payload s = elim s.item [
    | none ↦ s
    | some item ↦ record s { item = some (put_payload payload item) }
  ]

  unfoldable pub sink_end : Sink → Sink
  sink_end s = elim s.item [
    | none ↦ s
    | some item ↦ record s { bin_ring = api.complete s.bin_ring item.memory; item = none }
  ]

  pub record TextHook : Type 0 where
    pub text_ring : api.Ring
    pub text_enabled : Bool
    pub text_dropped : ℕ

  -- `text_vprintf` up to the call of the previous hook. The formatted text is `none` where `vsnprintf`
  -- fails; `own` says whether the upload task itself logs.
  unfoldable pub text_vprintf : ℕ → Bool → Option Bytes → TextHook → TextHook
  text_vprintf line_max own none h = h
  text_vprintf line_max own (some text) h =
      if h.text_enabled && not own && ltb 0 (length text)
      then elim (api.send h.text_ring (text_item line_max text)) [
        | none ↦ record h { text_dropped = add_one h.text_dropped }
        | some ring ↦ record h { text_ring = ring }
      ]
      else h

-- The batch buffer with the bytes in it, and what was handed to `sc_mqtt::publish`, the newest first.
-- `results k` is what the call behind `k` others returns, and `lost` has the batches for which it failed.
pub record Upload : Type 0 where
  pub batch : Bytes
  pub len : ℕ
  pub sent : List Bytes
  pub results : ℕ → EspErr
  pub lost : List Bytes

abbrev pub time_sync_len : ℕ
time_sync_len = 22

abbrev pub lost_with : EspErr → Bytes → List Bytes → List Bytes
lost_with EspErr.esp_ok batch lost = lost
lost_with _ batch lost = batch ∷ lost

-- A batch for which `publish` fails is logged as lost, and not kept.
abbrev pub publish_batch : Upload → Upload
publish_batch u =
    let message = take u.len u.batch in
    record u {
      len = 0;
      sent = message ∷ u.sent;
      lost = lost_with (u.results (length u.sent)) message u.lost;
    }

-- The upload before the first packet or line.
abbrev pub empty_upload : (ℕ → EspErr) → Bytes → Upload
empty_upload results batch = record {
  batch = batch;
  len = 0;
  sent = [];
  results = results;
  lost = [];
}

abbrev pub append_batch : Upload → Bytes → Upload
append_batch u bytes = record u { batch = copy_at u.batch u.len bytes; len = u.len + length bytes }

-- `sync k` is the packet that `on9log_encode_time_sync` writes into the message behind `k` others.
module _ (batch_size : ℕ) (sync : ℕ → Bytes) where
  unfoldable pub close_batch : Upload → Upload
  close_batch u = publish_batch (append_batch u (sync (length u.sent)))

  -- The body of the loop of `upload_bin`, for an item of the ring.
  unfoldable pub put_item : Upload → Bytes → Upload
  put_item u item =
      let cap = batch_size - time_sync_len in
      let u' = if ltb cap (u.len + length item) && ltb 0 u.len then close_batch u else u in
      if ltb cap (length item) then record u' { sent = item ∷ u'.sent } else append_batch u' item

  unfoldable pub put_items : Upload → List Bytes → Upload
  put_items u [] = u
  put_items u (item ∷ items) = put_items (put_item u item) items

  -- `upload_bin`, for the items that `xRingbufferReceive` gives until it gives none, and the DROPPED
  -- packet, which is empty where nothing was dropped.
  unfoldable pub upload_bin : (ℕ → EspErr) → Bytes → Bytes → List Bytes → Upload
  upload_bin results batch dropped items =
      let u = put_items (append_batch (empty_upload results batch) dropped) items in
      if ltb 0 u.len then close_batch u else u

module _ (batch_size : ℕ) where
  -- The line that tells of `dropped` lines, at `ms` since boot.
  unfoldable pub dropped_line : ℕ → ℕ → Bytes
  dropped_line ms dropped =
      if ltb 0 dropped
      then codes "W ("
        ++ (decimal ms
            ++ (codes ") soulcloud: " ++ (decimal dropped ++ codes " log lines dropped\n")))
      else []

  unfoldable pub put_line : Upload → Bytes → Upload
  put_line u line =
      append_batch (if ltb batch_size (u.len + length line) then publish_batch u else u) line

  unfoldable pub put_lines : Upload → List Bytes → Upload
  put_lines u [] = u
  put_lines u (line ∷ lines) = put_lines (put_line u line) lines

  unfoldable pub upload_text : (ℕ → EspErr) → Bytes → Bytes → List Bytes → Upload
  upload_text results batch dropped lines =
      let u = put_lines (append_batch (empty_upload results batch) dropped) lines in
      if ltb 0 u.len then publish_batch u else u
