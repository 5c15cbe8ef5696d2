-- ===== src/Mqtt/Data/Requests.antt =====
-- A request of the platform, from its first event to the slot that is submitted.
use esp_soulcloud_client.Prelude.{
  ℕ, ◌+◌, ◌≤◌, ◌<◌, List, [], ◌∷◌, ◌++◌, map, ◌≡◌, refl, sym, ap, ◌∙◌, ◌⊎◌, inl, inr, true, false,
  not, ◌||◌, Option, some, Bytes, codes, length, take, drop, get_elem?, equal_iff, ltb, leb,
  if◌then◌else◌, length-append, append-nil, take-length-append, drop-length-append, Option-cases,
  arith,
}
use esp_soulcloud_client.Mqtt.Data.{
  Event, Props, Receiver, dot, handle_data, take_data, start_request, drop_partial, route,
  write_request, has_prefix,
}
use esp_soulcloud_client.Mqtt.Data.Fragments.{
  total_of, joined, AllFilled, feed, Submitted, Partial, get_elem?-update_slot, take_data-Submitted,
  take_data-Partial, feed-Submitted,
}
use esp_soulcloud_client.Rpc.Queue.{Queues}
use esp_soulcloud_client.Rpc.Slots.{Slot, Pool, cleared, update_slot, take_free_slot, give_back}

-- The first event of a request for `method`, below the topic `down`.
abbrev pub first_event : Bytes → Bytes → ℕ → Option Props → Bytes → Event
first_event down method total props bytes = record {
  topic = down ++ (codes "req/" ++ method);
  payload = bytes;
  current_data_offset = 0;
  total_data_len = total;
  property = props;
}

has_prefix-append : (xs ys : Bytes) → has_prefix xs (xs ++ ys) ≡ true
has_prefix-append xs ys = (equal_iff (take (length xs) (xs ++ ys)) xs).1 (take-length-append xs ys)

write_request-parts :
    (payload_max : ℕ) (evt : Event) (method : Bytes) (s : Slot)
    → ((write_request payload_max evt method s).payload ≡ s.payload)
      × ((write_request payload_max evt method s).payload_len ≡ s.payload_len)
      × ((write_request payload_max evt method s).method ≡ map dot (take 47 method))
      × ((write_request payload_max evt method s).too_large ≡ ltb payload_max evt.total_data_len)
unfolding write_request
write_request-parts payload_max evt method s = elim (Option-cases evt.property) [
  | inl e ↦ rw e (refl, refl, refl, refl)
  | inr (p, e) ↦ rw e (ground arith)
]

module _ (api : Queues) (payload_max : ℕ) where
  drop_partial-keeps :
      (st : Receiver api)
      → ((drop_partial api payload_max st).down_topic ≡ st.down_topic)
        × ((drop_partial api payload_max st).pool.slots ≡ st.pool.slots)
        × ((drop_partial api payload_max st).rx_response ≡ false)
  unfolding drop_partial give_back
  drop_partial-keeps st = elim (Option-cases st.rx_slot) [
    | inl e ↦ rw e (refl, refl, refl)
    | inr (idx, e) ↦ rw e (refl, refl, refl)
  ]

  take_free_slot-slots :
      (p p' : Pool api) (idx : ℕ)
      → take_free_slot api p ≡ some (idx, p')
      → p'.slots ≡ update_slot cleared p.slots idx
  unfolding take_free_slot
  take_free_slot-slots p p' idx e = elim (Option-cases (api.receive p.free_slots)) [
    | inl none_free ↦ absurd (ground (arith, e, none_free))
    | inr ((i, q), got) ↦ ground (arith, e, got)
  ]

  route_request :
      (st : Receiver api) (evt : Event) (method : Bytes)
      → 0 < length method
      → route api payload_max st evt (codes "req/" ++ method)
        ≡ start_request api payload_max st evt method
  unfolding route
  route_request st evt method some_method =
      let long : ltb 4 (length (codes "req/" ++ method)) ≡ true = ground arith in
      rw (long, has_prefix-append (codes "req/") method) refl

  below_down_topic :
      (st : Receiver api) (evt : Event) (method : Bytes)
      → 0 < length method
      → evt.topic ≡ st.down_topic ++ (codes "req/" ++ method)
      → (if leb (length evt.topic) (length st.down_topic)
            || not (has_prefix st.down_topic evt.topic)
          then st
          else take_data api payload_max
              (route api payload_max st evt (drop (length st.down_topic) evt.topic))
              evt)
        ≡ take_data api payload_max (start_request api payload_max st evt method) evt
  below_down_topic st evt method some_method e =
      let n = length-append st.down_topic (codes "req/" ++ method) in
      let m = ap length e in
      let long : leb (length evt.topic) (length st.down_topic) ≡ false = ground (arith, n, m) in
      let below =
        ap (has_prefix st.down_topic) e
        ∙ has_prefix-append st.down_topic (codes "req/" ++ method) in
      let sub =
        ap (drop (length st.down_topic)) e
        ∙ drop-length-append st.down_topic (codes "req/" ++ method) in
      rw (long, below, sub, route_request st evt method some_method) refl

  -- The first event of a request, up to the copying of its bytes.
  handle_data_first :
      (st : Receiver api) (method : Bytes) (total : ℕ) (props : Option Props) (bytes : Bytes)
      → 0 < length method
      → let evt = first_event st.down_topic method total props bytes in
        handle_data api payload_max st evt
        ≡ take_data api payload_max
            (start_request api payload_max (drop_partial api payload_max st) evt method)
            evt
  unfolding handle_data
  handle_data_first st method total props bytes some_method =
      below_down_topic (drop_partial api payload_max st)
        (first_event st.down_topic method total props bytes) method some_method
        (ap (λ d. d ++ (codes "req/" ++ method)) (sym (drop_partial-keeps st).0))

  start_request_free :
      (st : Receiver api) (evt : Event) (method : Bytes) (idx : ℕ) (p : Pool api)
      → take_free_slot api st.pool ≡ some (idx, p)
      → start_request api payload_max st evt method ≡ record st {
        rx_slot = some idx;
        pool = record p { slots = update_slot (write_request payload_max evt method) p.slots idx };
      }
  unfolding start_request
  start_request_free st evt method idx p e = rw (e, start_request) refl

  -- The slot that the first event fills in, before its bytes are copied.
  start_request-Partial :
      (st : Receiver api) (evt : Event) (method : Bytes) (idx : ℕ) (p : Pool api) (s0 : Slot)
      → take_free_slot api (drop_partial api payload_max st).pool ≡ some (idx, p)
      → get_elem? st.pool.slots idx ≡ some s0
      → length s0.payload ≡ payload_max + 1
      → evt.total_data_len ≤ payload_max
      → Partial api payload_max idx
          (write_request payload_max evt method (cleared s0))
          []
          (start_request api payload_max (drop_partial api payload_max st) evt method)
  start_request-Partial st evt method idx p s0 free there size le =
      let k = drop_partial-keeps st in
      let parts = write_request-parts payload_max evt method (cleared s0) in
      let fits : ltb payload_max evt.total_data_len ≡ false = ground arith in
      rw (start_request_free (drop_partial api payload_max st) evt method idx p free) (record {
        request = k.2;
        slot_held = refl;
        slot = write_request payload_max evt method (cleared s0);
        slot_is =
            get_elem?-update_slot (write_request payload_max evt method) p.slots idx (cleared s0) (
              ap (λ x. get_elem? x idx)
                (take_free_slot-slots (drop_partial api payload_max st).pool p idx free)
              ∙ get_elem?-update_slot cleared (drop_partial api payload_max st).pool.slots idx s0
                  (ap (λ x. get_elem? x idx) k.1 ∙ there));
        holds = record {
          whole = parts.3 ∙ fits;
          size = ap length parts.0 ∙ size;
          len_is = parts.1;
          bytes_are = refl;
        };
        request_is = (refl, refl, refl);
      })

  -- However esp-mqtt cuts a request into events: where a slot is free and the payload is at most
  -- `payload_max` bytes, and no event but a single one is empty, the slot is submitted with the
  -- whole payload in order, its length and a NUL behind it, and with the method of the topic, its
  -- slashes as dots, cut to 47 bytes.
  pub request_reassembled :
      (st : Receiver api) (method f : Bytes) (fs : List Bytes) (props : Option Props) (idx : ℕ)
      (p : Pool api) (s0 : Slot)
      → 0 < length method
      → take_free_slot api (drop_partial api payload_max st).pool ≡ some (idx, p)
      → get_elem? st.pool.slots idx ≡ some s0
      → length s0.payload ≡ payload_max + 1
      → (0 < length f) ⊎ (fs ≡ [])
      → AllFilled fs
      → total_of (f ∷ fs) ≤ payload_max
      → let evt = first_event st.down_topic method (total_of (f ∷ fs)) props f in
        let s = write_request payload_max evt method (cleared s0) in
        Submitted api payload_max idx s (joined (f ∷ fs)) (
          feed api payload_max
            (handle_data api payload_max st evt)
            (total_of (f ∷ fs))
            (length f)
            fs)
        × (s.method ≡ map dot (take 47 method))
  unfolding feed
  request_reassembled st method f [] props idx p s0 some_method free there size filled all le =
      let evt = first_event st.down_topic method (length f + 0) props f in
      rw (handle_data_first st method (length f + 0) props f some_method, append-nil f)
        (
          take_data-Submitted api payload_max
              (start_request api payload_max (drop_partial api payload_max st) evt method) evt idx
              (write_request payload_max evt method (cleared s0)) []
              (start_request-Partial st evt method idx p s0 free there size le) refl (omega arith)
              le,
          (write_request-parts payload_max evt method (cleared s0)).2,
        )
  request_reassembled st method f (g ∷ gs) props idx p s0 some_method free there size
        (inr none_left) all le =
      absurd (ground (arith, none_left))
  request_reassembled st method f (g ∷ gs) props idx p s0 some_method free there size (inl filled)
        all le =
      let total = length f + (length g + total_of gs) in
      let evt = first_event st.down_topic method total props f in
      let part : Partial api payload_max idx (write_request payload_max evt method (cleared s0)) f
          (handle_data api payload_max st evt) =
        rw (handle_data_first st method total props f some_method) (
          take_data-Partial api payload_max
            (start_request api payload_max (drop_partial api payload_max st) evt method) evt idx
            (write_request payload_max evt method (cleared s0)) []
            (start_request-Partial st evt method idx p s0 free there size le) refl
            (omega (arith, all.0)) le) in
      (
        feed-Submitted api payload_max g gs (handle_data api payload_max st evt) idx
            (write_request payload_max evt method (cleared s0)) f total (length f) part filled all.1
            refl refl le,
        (write_request-parts payload_max evt method (cleared s0)).2,
      )
