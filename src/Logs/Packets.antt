-- ===== src/Logs/Packets.antt =====
-- A binary log packet on its way into the ring: `sink_start`, `sink_payload` for each part, `sink_end`.
use esp_soulcloud_client.Prelude.{
  ℕ, zero, suc, ◌≤◌, ◌+◌, ◌-◌, List, [], ◌∷◌, ◌++◌, ◌≡◌, refl, sym, ap, subst, ◌∙◌, true, none,
  some, Bytes, length, take, copy_at, ◌==◌, append-nil, append_assoc, length-append, arith,
}
use esp_soulcloud_client.Prelude.Memory.{take-copy_at, length-copy_at}
use esp_soulcloud_client.Logs.{
  Rings, PacketFormat, Item, Sink, sink_start, put_payload, sink_payload, sink_end, min, add_one,
}
use esp_soulcloud_client.Logs.Batches.{concat}

module _ (api : Rings) where
  open api use {Ring, acquire, complete, items, acquire_size, items-acquire, items-complete}

  unfoldable pub sink_payloads : List Bytes → Sink api → Sink api
  sink_payloads [] s = s
  sink_payloads (p ∷ ps) s = sink_payloads ps (sink_payload api p s)

  -- One packet, as on9log hands it over.
  unfoldable pub log_packet : PacketFormat → Bytes → List Bytes → Sink api → Sink api
  log_packet format header payloads s =
      sink_end api (sink_payloads payloads (sink_start api format (some header) s))

  take_all : (n : ℕ) (xs : Bytes) → length xs ≡ n → take n xs ≡ xs
  take_all zero [] h = refl
  take_all zero (x ∷ xs) h = absurd (ground (arith, h))
  take_all (suc n) [] h = absurd (ground (arith, h))
  take_all (suc n) (x ∷ xs) h = ap (◌∷◌ x) (take_all n xs (omega (arith, h)))

  -- The item holds `bytes` of a packet of `total` bytes.
  record Filled (total : ℕ) (item : Item api) (bytes : Bytes) : Type 0 where
    size : length item.memory ≡ total
    pos_is : item.pos ≡ length bytes
    bytes_are : take item.pos item.memory ≡ bytes

  put_payload-Filled :
      (total : ℕ) (item : Item api) (bytes p : Bytes)
      → Filled total item bytes
      → length bytes + length p ≤ total
      → Filled total (put_payload api p item) (bytes ++ p)
  unfolding put_payload
  put_payload-Filled total item bytes p h fits =
      let room : min (length p) (length item.memory - item.pos) ≡ length p =
        ground (arith, h.size, h.pos_is, fits) in
      let whole = take_all (length p) p refl in
      let n = length-append bytes p in
      rw (room, whole)
        (record {
          size = length-copy_at p item.memory item.pos ∙ h.size;
          pos_is = omega (arith, n, h.pos_is);
          bytes_are =
              take-copy_at p item.memory item.pos (item.pos + length p) refl
                (omega (arith, h.size, h.pos_is))
              ∙ ap (λ t. t ++ p) h.bytes_are;
        })

  -- The sink is filling an item, with the ring and the counter as they are.
  record Filling (total : ℕ) (bytes : Bytes) (ring : Ring) (dropped : ℕ) (s : Sink api)
      : Type 0 where
    ring_is : s.bin_ring ≡ ring
    dropped_is : s.bin_dropped ≡ dropped
    item : Item api
    item_is : s.item ≡ some item
    filled : Filled total item bytes

  sink_payload-Filling :
      (total : ℕ) (bytes p : Bytes) (ring : Ring) (dropped : ℕ) (s : Sink api)
      → Filling total bytes ring dropped s
      → length bytes + length p ≤ total
      → Filling total (bytes ++ p) ring dropped (sink_payload api p s)
  unfolding sink_payload
  sink_payload-Filling total bytes p ring dropped s h fits =
      rw (h.item_is, sink_payload)
        (record {
          ring_is = h.ring_is;
          dropped_is = h.dropped_is;
          item = put_payload api p h.item;
          item_is = refl;
          filled = put_payload-Filled total h.item bytes p h.filled fits;
        })

  sink_payloads-Filling :
      (ps : List Bytes) (total : ℕ) (bytes : Bytes) (ring : Ring) (dropped : ℕ) (s : Sink api)
      → Filling total bytes ring dropped s
      → length bytes + length (concat ps) ≤ total
      → Filling total (bytes ++ concat ps) ring dropped (sink_payloads ps s)
  unfolding sink_payloads
  sink_payloads-Filling [] total bytes ring dropped s h fits =
      subst (λ t. Filling total t ring dropped s) (sym (append-nil bytes)) h
  sink_payloads-Filling (p ∷ ps) total bytes ring dropped s h fits =
      let n = length-append p (concat ps) in
      let m = length-append bytes p in
      subst (λ t. Filling total t ring dropped (sink_payloads ps (sink_payload api p s)))
        (append_assoc bytes p (concat ps))
        (sink_payloads-Filling ps total (bytes ++ p) ring dropped (sink_payload api p s)
          (sink_payload-Filling total bytes p ring dropped s h (omega (arith, fits, n)))
          (omega (arith, fits, n, m)))

  sink_start-Filling :
      (format : PacketFormat) (header memory : Bytes) (s : Sink api) (ring : Ring)
      → s.bin_enabled ≡ true
      → length header ≡ format.header_size
      → acquire s.bin_ring (length header + format.payload_len header) ≡ some (memory, ring)
      → Filling
          (length header + format.payload_len header)
          header
          ring
          s.bin_dropped
          (sink_start api format (some header) s)
  unfolding sink_start
  sink_start-Filling format header memory s ring on size room =
      let whole : (length header == format.header_size) ≡ true = ground (arith, size) in
      let n =
        acquire_size s.bin_ring ring (length header + format.payload_len header) memory room in
      rw (whole, on, room, sink_start)
        (record {
          ring_is = refl;
          dropped_is = refl;
          item = record { memory = copy_at memory 0 header; pos = length header };
          item_is = refl;
          filled = record {
            size = length-copy_at header memory 0 ∙ n;
            pos_is = refl;
            bytes_are =
                take-copy_at header memory 0 (length header) (omega arith) (omega (arith, n));
          };
        })

  sink_end-Filling :
      (total : ℕ) (bytes : Bytes) (ring : Ring) (dropped : ℕ) (s : Sink api)
      → Filling total bytes ring dropped s
      → length bytes ≡ total
      → (items ((sink_end api s).bin_ring) ≡ items ring ++ bytes ∷ [])
        × ((sink_end api s).bin_dropped ≡ dropped)
        × ((sink_end api s).item ≡ none)
  unfolding sink_end
  sink_end-Filling total bytes ring dropped s h n =
      let f = h.filled in
      let whole : h.item.memory ≡ bytes =
        sym (take_all h.item.pos h.item.memory (omega (arith, f.size, f.pos_is, n)))
        ∙ f.bytes_are in
      rw (h.item_is, sink_end)
        (
          ap (λ r. items (complete r h.item.memory)) h.ring_is
              ∙ items-complete ring h.item.memory
              ∙ ap (λ m. items ring ++ m ∷ []) whole,
          h.dropped_is,
          refl,
        )

  -- With the binary uplink on, room in the ring, a header of its size and as many payload bytes as it says: the ring
  -- gets the whole packet as its last item, nothing is counted as dropped, and the sink is free again.
  pub log_packet-items :
      (format : PacketFormat) (header memory : Bytes) (payloads : List Bytes) (s : Sink api)
      (ring : Ring)
      → s.bin_enabled ≡ true
      → length header ≡ format.header_size
      → length (concat payloads) ≡ format.payload_len header
      → acquire s.bin_ring (length header + format.payload_len header) ≡ some (memory, ring)
      → let t = log_packet format header payloads s in
        (items t.bin_ring ≡ items s.bin_ring ++ (header ++ concat payloads) ∷ [])
        × (t.bin_dropped ≡ s.bin_dropped)
        × (t.item ≡ none)
  unfolding log_packet
  log_packet-items format header memory payloads s ring on size len room =
      let total = length header + format.payload_len header in
      let start = sink_start-Filling format header memory s ring on size room in
      let full =
        sink_payloads-Filling payloads total header ring s.bin_dropped
          (sink_start api format (some header) s) start (omega (arith, len)) in
      let n = length-append header (concat payloads) in
      let done =
        sink_end-Filling total (header ++ concat payloads) ring s.bin_dropped
          (sink_payloads payloads (sink_start api format (some header) s)) full
          (omega (arith, n, len)) in
      (
        done.0
            ∙ ap (λ xs. xs ++ (header ++ concat payloads) ∷ [])
                (items-acquire s.bin_ring ring total memory room),
        done.1,
        done.2,
      )

  sink_payloads_idle : (ps : List Bytes) (s : Sink api) → s.item ≡ none → sink_payloads ps s ≡ s
  unfolding sink_payloads sink_payload
  sink_payloads_idle [] s h = refl
  sink_payloads_idle (p ∷ ps) s h =
      let same : sink_payload api p s ≡ s = ground (arith, h) in
      rw (same, sink_payloads) (sink_payloads_idle ps s h)

  sink_start_full :
      (format : PacketFormat) (header : Bytes) (s : Sink api)
      → s.bin_enabled ≡ true
      → length header ≡ format.header_size
      → acquire s.bin_ring (length header + format.payload_len header) ≡ none
      → sink_start api format (some header) s
        ≡ record s { item = none; bin_dropped = add_one s.bin_dropped }
  unfolding sink_start
  sink_start_full format header s on size full =
      let whole : (length header == format.header_size) ≡ true = ground (arith, size) in
      ground (arith, whole, on, full)

  -- With the binary uplink on and no room in the ring: the packet is counted as dropped, and the ring is
  -- left as it is.
  pub log_packet_dropped :
      (format : PacketFormat) (header : Bytes) (payloads : List Bytes) (s : Sink api)
      → s.bin_enabled ≡ true
      → length header ≡ format.header_size
      → acquire s.bin_ring (length header + format.payload_len header) ≡ none
      → let t = log_packet format header payloads s in
        (t.bin_ring ≡ s.bin_ring) × (t.bin_dropped ≡ add_one s.bin_dropped) × (t.item ≡ none)
  unfolding log_packet sink_end
  log_packet_dropped format header payloads s on size full =
      let start = sink_start_full format header s on size full in
      rw
        (
          start,
          sink_payloads_idle payloads
              (record s { item = none; bin_dropped = add_one s.bin_dropped }) refl,
        )
        (refl, refl, refl)
