-- ===== src/Mqtt/Data/Fragments.antt =====
-- A message that arrives in fragments: the events of it, and what they leave in the slot or in the
-- buffer of the call.
use esp_soulcloud_client.Prelude.{
  ℕ, zero, suc, ◌+◌, ◌≤◌, ◌<◌, List, [], ◌∷◌, ◌++◌, ◌≡◌, refl, ap, subst, ◌∙◌, true, false, none,
  some, Bytes, length, take, get_elem?, get_or, leb, length-append, length-set, append-nil,
  append_assoc, arith,
}
use esp_soulcloud_client.Prelude.Memory.{take-copy_at, length-copy_at, take-set_ge, get_or-set_self}
use esp_soulcloud_client.Mqtt.Data.{
  Event, Receiver, handle_data, take_data, take_payload, write_payload, close_payload,
}
use esp_soulcloud_client.Rpc.Queue.{Queues}
use esp_soulcloud_client.Rpc.Slots.{Slot, Pool, update_slot, submit}

abbrev pub total_of : List Bytes → ℕ
total_of [] = 0
total_of (f ∷ fs) = length f + total_of fs

abbrev pub joined : List Bytes → Bytes
joined [] = []
joined (f ∷ fs) = f ++ joined fs

-- An event behind the first one of its message.
abbrev pub later_event : ℕ → ℕ → Bytes → Event
later_event total offset bytes = record {
  topic = [];
  payload = bytes;
  current_data_offset = offset;
  total_data_len = total;
  property = none;
}

-- What a slot holds of a request, `done` of `total` bytes.
pub record Holds (payload_max : ℕ) (s : Slot) (bytes : Bytes) : Type 0 where
  pub whole : s.too_large ≡ false
  pub size : length s.payload ≡ payload_max + 1
  pub len_is : s.payload_len ≡ length bytes
  pub bytes_are : take (length bytes) s.payload ≡ bytes

write_payload-Holds :
    (payload_max : ℕ) (s : Slot) (evt : Event) (bytes : Bytes)
    → Holds payload_max s bytes
    → evt.current_data_offset ≡ length bytes
    → length bytes + length evt.payload ≤ payload_max
    → Holds payload_max (write_payload payload_max evt s) (bytes ++ evt.payload)
unfolding write_payload
write_payload-Holds payload_max s evt bytes h e le =
    let fits : leb (evt.current_data_offset + length evt.payload) payload_max ≡ true =
      ground arith in
    let n = length-append bytes evt.payload in
    rw (h.whole, fits)
      (record {
        whole = refl;
        size = length-copy_at evt.payload s.payload evt.current_data_offset ∙ h.size;
        len_is = omega (arith, n);
        bytes_are =
            take-copy_at evt.payload s.payload evt.current_data_offset
              (length (bytes ++ evt.payload)) (omega (arith, n)) (omega (arith, n, h.size))
            ∙ ap (λ k. take k s.payload ++ evt.payload) e
            ∙ ap (λ t. t ++ evt.payload) h.bytes_are;
      })

-- The parts of a slot that say what was asked, which the payload does not touch.
abbrev pub SameRequest : Slot → Slot → Type 0
SameRequest s t =
    (t.method ≡ s.method) × (t.correlation ≡ s.correlation) × (t.response_topic ≡ s.response_topic)

write_payload-SameRequest :
    (payload_max : ℕ) (evt : Event) (s : Slot) → SameRequest s (write_payload payload_max evt s)
unfolding write_payload
write_payload-SameRequest payload_max evt s = ground arith

pub get_elem?-update_slot :
    (f : Slot → Slot) (slots : List Slot) (idx : ℕ) (s : Slot)
    → get_elem? slots idx ≡ some s
    → get_elem? (update_slot f slots idx) idx ≡ some (f s)
get_elem?-update_slot f [] idx s h = cc
get_elem?-update_slot f (x ∷ slots) zero s h = cc
get_elem?-update_slot f (x ∷ slots) (suc idx) s h = get_elem?-update_slot f slots idx s h

abbrev pub AllFilled : List Bytes → Type 0
AllFilled [] = Unit
AllFilled (f ∷ fs) = (0 < length f) × AllFilled fs

module _ (api : Queues) (payload_max : ℕ) where
  -- The later events of a message of `total` bytes, from `offset` on.
  unfoldable pub feed : Receiver api → ℕ → ℕ → List Bytes → Receiver api
  feed st total offset [] = st
  feed st total offset (f ∷ fs) =
      feed (handle_data api payload_max st (later_event total offset f)) total (offset + length f)
        fs

  -- The request `s` was submitted in the slot `idx`, with the payload `bytes` and a NUL behind it.
  pub record Submitted (idx : ℕ) (s : Slot) (bytes : Bytes) (st : Receiver api) : Type 0 where
    pub no_slot : st.rx_slot ≡ none
    pub pool_before : Pool api
    pub slot : Slot
    pub submitted : st.pool ≡ submit api pool_before idx
    pub slot_is : get_elem? pool_before.slots idx ≡ some slot
    pub holds : Holds payload_max slot bytes
    pub terminated : get_or slot.payload (length bytes) 1 ≡ 0
    pub request_is : SameRequest s slot

  pub record Partial (idx : ℕ) (s : Slot) (bytes : Bytes) (st : Receiver api) : Type 0 where
    pub request : st.rx_response ≡ false
    pub slot_held : st.rx_slot ≡ some idx
    pub slot : Slot
    pub slot_is : get_elem? st.pool.slots idx ≡ some slot
    pub holds : Holds payload_max slot bytes
    pub request_is : SameRequest s slot

  close-Holds :
      (s : Slot) (bytes : Bytes)
      → Holds payload_max s bytes
      → length bytes ≤ payload_max
      → Holds payload_max (close_payload s) bytes
        × (get_or (close_payload s).payload (length bytes) 1 ≡ 0)
  close-Holds s bytes h le = (
    record {
      whole = h.whole;
      size = length-set s.payload s.payload_len 0 ∙ h.size;
      len_is = h.len_is;
      bytes_are =
          take-set_ge (length bytes) s.payload_len 0 s.payload (omega (arith, h.len_is))
          ∙ h.bytes_are;
    },
    rw h.len_is (get_or-set_self s.payload (length bytes) 0 1 (omega (arith, h.size))),
  )

  take_data_request :
      (st : Receiver api) (evt : Event) (idx : ℕ)
      → st.rx_response ≡ false
      → st.rx_slot ≡ some idx
      → take_data api payload_max st evt ≡ take_payload api payload_max st evt idx
  unfolding take_data
  take_data_request st evt idx r h = ground arith

  abbrev written_slots : Receiver api → Event → ℕ → List Slot
  written_slots st evt idx = update_slot (write_payload payload_max evt) st.pool.slots idx

  abbrev closed_pool : Receiver api → Event → ℕ → Pool api
  closed_pool st evt idx = record (st.pool) {
    slots = update_slot close_payload (written_slots st evt idx) idx;
  }

  take_payload_last :
      (st : Receiver api) (evt : Event) (idx : ℕ)
      → evt.total_data_len ≤ evt.current_data_offset + length evt.payload
      → take_payload api payload_max st evt idx
        ≡ record st { pool = submit api (closed_pool st evt idx) idx; rx_slot = none }
  unfolding take_payload
  take_payload_last st evt idx h =
      let last : leb evt.total_data_len (evt.current_data_offset + length evt.payload) ≡ true =
        ground arith in
      rw last

  take_payload_more :
      (st : Receiver api) (evt : Event) (idx : ℕ)
      → evt.current_data_offset + length evt.payload < evt.total_data_len
      → take_payload api payload_max st evt idx
        ≡ record st { pool = record (st.pool) { slots = written_slots st evt idx } }
  unfolding take_payload
  take_payload_more st evt idx h =
      let more : leb evt.total_data_len (evt.current_data_offset + length evt.payload) ≡ false =
        ground arith in
      rw more

  -- The last fragment submits the slot; any other leaves it in hand.
  pub take_data-Submitted :
      (st : Receiver api) (evt : Event) (idx : ℕ) (s : Slot) (bytes : Bytes)
      → Partial idx s bytes st
      → evt.current_data_offset ≡ length bytes
      → evt.total_data_len ≡ length bytes + length evt.payload
      → evt.total_data_len ≤ payload_max
      → Submitted idx s (bytes ++ evt.payload) (take_data api payload_max st evt)
  take_data-Submitted st evt idx s bytes p e t le =
      let n = length-append bytes evt.payload in
      let w = write_payload payload_max evt p.slot in
      let h = write_payload-Holds payload_max p.slot evt bytes p.holds e (omega arith) in
      let same = write_payload-SameRequest payload_max evt p.slot in
      let c = close-Holds w (bytes ++ evt.payload) h (omega (arith, n)) in
      rw
        (take_data_request st evt idx p.request p.slot_held
          ∙ take_payload_last st evt idx (omega arith))
        (record {
          no_slot = refl;
          pool_before = closed_pool st evt idx;
          slot = close_payload w;
          submitted = refl;
          slot_is = get_elem?-update_slot close_payload (written_slots st evt idx) idx w (
              get_elem?-update_slot (write_payload payload_max evt) st.pool.slots idx p.slot
                p.slot_is);
          holds = c.0;
          terminated = c.1;
          request_is = (same.0 ∙ p.request_is.0, same.1 ∙ p.request_is.1, same.2 ∙ p.request_is.2);
        })

  pub take_data-Partial :
      (st : Receiver api) (evt : Event) (idx : ℕ) (s : Slot) (bytes : Bytes)
      → Partial idx s bytes st
      → evt.current_data_offset ≡ length bytes
      → length bytes + length evt.payload < evt.total_data_len
      → evt.total_data_len ≤ payload_max
      → Partial idx s (bytes ++ evt.payload) (take_data api payload_max st evt)
  take_data-Partial st evt idx s bytes p e lt le =
      let w = write_payload payload_max evt p.slot in
      let same = write_payload-SameRequest payload_max evt p.slot in
      rw
        (take_data_request st evt idx p.request p.slot_held
          ∙ take_payload_more st evt idx (omega arith))
        (record {
          request = p.request;
          slot_held = p.slot_held;
          slot = w;
          slot_is =
              get_elem?-update_slot (write_payload payload_max evt) st.pool.slots idx p.slot
                p.slot_is;
          holds = write_payload-Holds payload_max p.slot evt bytes p.holds e (omega arith);
          request_is = (same.0 ∙ p.request_is.0, same.1 ∙ p.request_is.1, same.2 ∙ p.request_is.2);
        })

  handle_data_later :
      (st : Receiver api) (evt : Event)
      → 0 < evt.current_data_offset
      → handle_data api payload_max st evt ≡ take_data api payload_max st evt
  unfolding handle_data
  handle_data_later st evt h = ground arith

  -- The fragments behind a part `bytes` of the message, the last of them included.
  pub feed-Submitted :
      (f : Bytes) (fs : List Bytes) (st : Receiver api) (idx : ℕ) (s : Slot) (bytes : Bytes)
      (total offset : ℕ)
      → Partial idx s bytes st
      → 0 < length bytes
      → AllFilled fs
      → offset ≡ length bytes
      → total ≡ length bytes + (length f + total_of fs)
      → total ≤ payload_max
      → Submitted idx s (bytes ++ (f ++ joined fs)) (feed st total offset (f ∷ fs))
  unfolding feed
  feed-Submitted f [] st idx s bytes total offset p some_bytes filled e t le =
      rw (handle_data_later st (later_event total offset f) (omega arith), append-nil f)
        (take_data-Submitted st (later_event total offset f) idx s bytes p e (omega arith) le)
  feed-Submitted f (g ∷ fs) st idx s bytes total offset p some_bytes filled e t le =
      let st' = handle_data api payload_max st (later_event total offset f) in
      let n = length-append bytes f in
      let p' : Partial idx s (bytes ++ f) st' =
        rw (handle_data_later st (later_event total offset f) (omega arith))
          (take_data-Partial st (later_event total offset f) idx s bytes p e (omega arith) le) in
      subst (λ x. Submitted idx s x (feed st' total (offset + length f) (g ∷ fs)))
        (append_assoc bytes f (g ++ joined fs))
        (feed-Submitted g fs st' idx s (bytes ++ f) total (offset + length f) p' (omega (arith, n))
          filled.1 (omega (arith, n)) (omega (arith, n)) le)
