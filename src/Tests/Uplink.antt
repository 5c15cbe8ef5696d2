-- ===== src/Tests/Uplink.antt =====
-- Concrete logs, over rings that are lists with a bound.
use esp_soulcloud_client.Prelude.{
  ℕ, zero, suc, ◌≤◌, ◌≡◌, refl, List, [], ◌∷◌, ◌++◌, true, Option, none, some, Bytes, codes, length,
  replicate, ltb, if◌then◌else◌, arith,
}
use esp_soulcloud_client.Esp.{EspErr}
use esp_soulcloud_client.Logs.{Rings, PacketFormat, Sink, upload_bin, upload_text}
use esp_soulcloud_client.Logs.Batches.{AllCarried, upload_bin-AllCarried}
use esp_soulcloud_client.Logs.Lines.{AllLines, upload_text-AllLines}
use esp_soulcloud_client.Logs.Packets.{log_packet, log_packet-items}

abbrev room_of : List Bytes → ℕ → Option (Bytes × List Bytes)
room_of items n = if ltb (length items) 4 then some (replicate n 0, items) else none

abbrev with_item : List Bytes → Bytes → Option (List Bytes)
with_item items item = if ltb (length items) 4 then some (items ++ item ∷ []) else none

length-replicate : (n : ℕ) → length {A = ℕ} (replicate n 0) ≡ n
length-replicate zero = refl
length-replicate (suc n) = let rest = length-replicate n in omega (arith, rest)

room_of-size :
    (r r' : List Bytes) (n : ℕ) (memory : Bytes)
    → room_of r n ≡ some (memory, r')
    → length memory ≡ n
room_of-size r r' n memory e = let size = length-replicate n in ground (arith, e, size)

room_of-same :
    (r r' : List Bytes) (n : ℕ) (memory : Bytes) → room_of r n ≡ some (memory, r') → r' ≡ r
room_of-same r r' n memory e = ground (arith, e)

with_item-items :
    (r r' : List Bytes) (item : Bytes) → with_item r item ≡ some r' → r' ≡ r ++ item ∷ []
with_item-items r r' item e = ground (arith, e)

-- At most four items, of any size.
abbrev rings : Rings
rings = record {
  Ring = List Bytes;
  acquire = room_of;
  complete = λ r item. r ++ item ∷ [];
  send = with_item;
  items = λ r. r;
  acquire_size = room_of-size;
  items-acquire = room_of-same;
  items-complete = λ r item. refl;
  items-send = with_item-items;
}

abbrev format : PacketFormat
format = record { header_size = 2; payload_len = λ header. 3 }

abbrev sink : Sink rings
sink = record { bin_ring = []; bin_enabled = true; bin_dropped = 0; item = none }

log_packet-items_example :
    let t = log_packet rings format (1 ∷ 2 ∷ []) ((3 ∷ 4 ∷ []) ∷ (5 ∷ []) ∷ []) sink in
    (t.bin_ring ≡ (1 ∷ 2 ∷ 3 ∷ 4 ∷ 5 ∷ []) ∷ []) × (t.bin_dropped ≡ 0) × (t.item ≡ none)
log_packet-items_example =
    log_packet-items rings format (1 ∷ 2 ∷ []) (replicate 5 0) ((3 ∷ 4 ∷ []) ∷ (5 ∷ []) ∷ []) sink
      [] refl refl refl refl

-- Two packets fill a batch of 30 bytes with its time packet, a third is too long for one.
abbrev sync : ℕ → Bytes
sync k = replicate 22 k

sync_fits : (k : ℕ) → length (sync k) ≤ 22
sync_fits k = omega arith

-- The first message is lost.
abbrev results : ℕ → EspErr
results zero = EspErr.timeout
results (suc k) = EspErr.esp_ok

abbrev packets : List Bytes
packets = (1 ∷ 2 ∷ 3 ∷ []) ∷ (4 ∷ 5 ∷ 6 ∷ 7 ∷ []) ∷ replicate 9 8 ∷ []

upload_bin-AllCarried_example :
    AllCarried 30 sync (upload_bin 30 sync results (replicate 30 0) [] packets).sent ([] ∷ packets)
upload_bin-AllCarried_example =
    upload_bin-AllCarried 30 sync sync_fits (omega arith) results (replicate 30 0) [] packets refl
      (omega arith)

abbrev lines : List Bytes
lines = codes "one\n" ∷ codes "two\n" ∷ codes "three\n" ∷ []

upload_text-AllLines_example :
    AllLines 10 (upload_text 10 results (replicate 10 0) [] lines).sent ([] ∷ lines)
upload_text-AllLines_example =
    upload_text-AllLines 10 results (replicate 10 0) [] lines refl (omega arith)
      (omega arith, (omega arith, (omega arith, tt)))
