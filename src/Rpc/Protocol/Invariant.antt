-- ===== src/Rpc/Protocol/Invariant.antt =====
-- The invariant of the slots, and what it gives to the two tasks.
use esp_soulcloud_client.Prelude.{
  ℕ, ◌+◌, ◌<◌, List, [], ◌∷◌, ◌++◌, ◌≡◌, ◌≢◌, refl, ap, ◌∙◌, ◌⊎◌, inl, inr, Bool, true, false, none,
  some, length, count, count-append, length-append, Option-cases, arith,
}
use esp_soulcloud_client.Rpc.Protocol.{
  idle, filling, announcing, waiting, draining, handling, held_mqtt, held_request, System, Step,
  take, write, put, tell, discard, wake, time_out, fetch, rest, finish, Owned,
}
use esp_soulcloud_client.Rpc.Queue.{Queues}
use esp_soulcloud_client.Rpc.Slots.{
  Pool, send_or_keep, take_free_slot, put_ready, announce, give_back, take_ready,
}

module _ (api : Queues) where
  open api use {
    Queue, send, receive, contents, capacity, send_room, receive_empty, receive_first,
    contents-create, capacity-create,
  }

  abbrev Received : Queue → ℕ → Queue → Type 0
  Received q idx q' = (contents q ≡ idx ∷ contents q') × (capacity q' ≡ capacity q)

  Received-from :
      (q : Queue) (idx : ℕ) (q' : Queue) (items : List ℕ)
      → contents q ≡ items
      → receive q ≡ some (idx, q')
      → Received q idx q'
  Received-from q idx q' [] c e = absurd (ground (arith, e, receive_empty q c))
  Received-from q idx q' (x ∷ xs) c e =
      let (r, f, g, h) = receive_first q x xs c in ground (arith, e, f, g, h, c)

  emptied_from :
      (q : Queue) (items : List ℕ) → contents q ≡ items → receive q ≡ none → contents q ≡ []
  emptied_from q [] c e = c
  emptied_from q (x ∷ xs) c e =
      let (r, f, g, h) = receive_first q x xs c in absurd (ground (arith, e, f))

  abbrev pub Sent : Queue → ℕ → Queue → Type 0
  Sent q idx q' = (contents q' ≡ contents q ++ idx ∷ []) × (capacity q' ≡ capacity q)

  pub send-Sent :
      (q : Queue) (idx : ℕ) → length (contents q) < capacity q → Sent q idx (send_or_keep api q idx)
  send-Sent q idx h = let (r, f, g, k) = send_room q idx h in rw (f, send_or_keep) (g, k)

  -- Taking a slot out of a queue gives the first index there.
  take_free_slot-Received :
      (p p' : Pool api) (idx : ℕ)
      → take_free_slot api p ≡ some (idx, p')
      → Received p.free_slots idx p'.free_slots
        × (p'.ready_slots ≡ p.ready_slots)
        × (p'.request_ready ≡ p.request_ready)
  unfolding take_free_slot
  take_free_slot-Received p p' idx e = elim (Option-cases (receive p.free_slots)) [
    | inl f ↦ absurd (ground (arith, e, f))
    | inr ((i, q), f) ↦
        let g = Received-from p.free_slots i q (contents p.free_slots) refl f in
        ground (arith, e, f, g)
  ]

  take_ready-Received :
      (p p' : Pool api) (idx : ℕ)
      → take_ready api p ≡ some (idx, p')
      → Received p.ready_slots idx p'.ready_slots
        × (p'.free_slots ≡ p.free_slots)
        × (p'.request_ready ≡ p.request_ready)
  unfolding take_ready
  take_ready-Received p p' idx e = elim (Option-cases (receive p.ready_slots)) [
    | inl f ↦ absurd (ground (arith, e, f))
    | inr ((i, q), f) ↦
        let g = Received-from p.ready_slots i q (contents p.ready_slots) refl f in
        ground (arith, e, f, g)
  ]

  take_ready-none : (p : Pool api) → take_ready api p ≡ none → contents p.ready_slots ≡ []
  unfolding take_ready
  take_ready-none p e = elim (Option-cases (receive p.ready_slots)) [
    | inl f ↦ emptied_from p.ready_slots (contents p.ready_slots) refl f
    | inr ((i, q), f) ↦ absurd (ground (arith, e, f))
  ]

  -- What is weighed over the places of a slot: a measure that adds up over a list.
  record Additive (g : List ℕ → ℕ) : Type 0 where
    nil : g [] ≡ 0
    cons : (x : ℕ) (xs : List ℕ) → g (x ∷ xs) ≡ g (x ∷ []) + g xs
    append : (xs ys : List ℕ) → g (xs ++ ys) ≡ g xs + g ys

  abbrev weight : (List ℕ → ℕ) → System api → ℕ
  weight g s =
      g (contents s.pool.free_slots)
      + g (contents s.pool.ready_slots)
      + g (held_mqtt s.mqtt)
      + g (held_request s.request)

  length-Additive : Additive length
  length-Additive = record { nil = refl; cons = λ x xs. omega arith; append = length-append }

  count-Additive : (i : ℕ) → Additive (count i)
  count-Additive i = record { nil = refl; cons = λ x xs. omega arith; append = count-append i }

  abbrev Notices : System api → Type 0
  Notices s =
      s.request ≡ waiting
      → contents s.pool.ready_slots ≢ []
      → (s.pool.request_ready ≡ true) ⊎ (s.mqtt ≡ announcing)

  module _ (n : ℕ) {s : System api} (o : Owned api n s) where
    moved :
        {t : System api}
        → ((g : List ℕ → ℕ) → Additive g → weight g t ≡ weight g s)
        → capacity t.pool.free_slots ≡ capacity s.pool.free_slots
        → capacity t.pool.ready_slots ≡ capacity s.pool.ready_slots
        → Notices t
        → Owned api n t
    moved w f r v = record {
      free_capacity = f ∙ o.free_capacity;
      ready_capacity = r ∙ o.ready_capacity;
      total = w length length-Additive ∙ o.total;
      once = λ i. w (count i) (count-Additive i) ∙ o.once i;
      noticed = v;
    }

    take-Owned :
        (idx : ℕ) (p : Pool api)
        → s.mqtt ≡ idle
        → take_free_slot api s.pool ≡ some (idx, p)
        → Owned api n (record s { pool = p; mqtt = filling idx })
    take-Owned idx p m e =
        let (r, f, b) = take_free_slot-Received s.pool p idx e in
        moved
          (λ g a. omega (
            arith,
            ap g r.0,
            ap (λ q. g (contents q)) f,
            ap (λ t. g (held_mqtt t)) m,
            a.nil,
            a.cons idx (contents p.free_slots),
          ))
          r.1 (ap capacity f) (λ w c. ground (arith, o.noticed w, b, ap contents f))

    fetch-Owned :
        (idx : ℕ) (p : Pool api)
        → s.request ≡ draining
        → take_ready api s.pool ≡ some (idx, p)
        → Owned api n (record s { pool = p; request = handling idx })
    fetch-Owned idx p m e =
        let (r, f, b) = take_ready-Received s.pool p idx e in
        moved
          (λ g a. omega (
            arith,
            ap g r.0,
            ap (λ q. g (contents q)) f,
            ap (λ t. g (held_request t)) m,
            a.nil,
            a.cons idx (contents p.ready_slots),
          ))
          (ap capacity f) r.1 (λ w c. cc w)

    -- A slot in hand leaves room in both queues.
    pub ready_room :
        (idx : ℕ)
        → s.mqtt ≡ filling idx
        → length (contents s.pool.ready_slots) < capacity s.pool.ready_slots
    ready_room idx m = omega (arith, o.total, o.ready_capacity, ap (λ t. length (held_mqtt t)) m)

    pub free_room_mqtt :
        (idx : ℕ)
        → s.mqtt ≡ filling idx
        → length (contents s.pool.free_slots) < capacity s.pool.free_slots
    free_room_mqtt idx m = omega (arith, o.total, o.free_capacity, ap (λ t. length (held_mqtt t)) m)

    pub free_room_request :
        (idx : ℕ)
        → s.request ≡ handling idx
        → length (contents s.pool.free_slots) < capacity s.pool.free_slots
    free_room_request idx m =
        omega (arith, o.total, o.free_capacity, ap (λ t. length (held_request t)) m)

    put-Owned :
        (idx : ℕ)
        → s.mqtt ≡ filling idx
        → Owned api n (record s { pool = put_ready api s.pool idx; mqtt = announcing })
    unfolding put_ready
    put-Owned idx m =
        let (c, k) = send-Sent s.pool.ready_slots idx (ready_room idx m) in
        moved
          (λ g a. omega (
            arith,
            ap g c,
            ap (λ t. g (held_mqtt t)) m,
            a.nil,
            a.append (contents s.pool.ready_slots) (idx ∷ []),
          ))
          refl k (λ w x. inr refl)

    discard-Owned :
        (idx : ℕ)
        → s.mqtt ≡ filling idx
        → Owned api n (record s { pool = give_back api s.pool idx; mqtt = idle })
    unfolding give_back
    discard-Owned idx m =
        let (c, k) = send-Sent s.pool.free_slots idx (free_room_mqtt idx m) in
        moved
          (λ g a. omega (
            arith,
            ap g c,
            ap (λ t. g (held_mqtt t)) m,
            a.nil,
            a.append (contents s.pool.free_slots) (idx ∷ []),
          ))
          k refl (λ w x. ground (arith, o.noticed w x))

    finish-Owned :
        (idx : ℕ)
        → s.request ≡ handling idx
        → Owned api n (record s { pool = give_back api s.pool idx; request = draining })
    unfolding give_back
    finish-Owned idx m =
        let (c, k) = send-Sent s.pool.free_slots idx (free_room_request idx m) in
        moved
          (λ g a. omega (
            arith,
            ap g c,
            ap (λ t. g (held_request t)) m,
            a.nil,
            a.append (contents s.pool.free_slots) (idx ∷ []),
          ))
          k refl (λ w x. cc w)

    rest-Owned :
        s.request ≡ draining
        → take_ready api s.pool ≡ none
        → Owned api n (record s { request = waiting })
    rest-Owned m e =
        moved (λ g a. omega (arith, ap (λ t. g (held_request t)) m)) refl refl
          (λ w x. absurd (x (take_ready-none s.pool e)))

    tell-Owned :
        s.mqtt ≡ announcing → Owned api n (record s { pool = announce api s.pool; mqtt = idle })
    unfolding announce
    tell-Owned m =
        moved (λ g a. omega (arith, ap (λ t. g (held_mqtt t)) m)) refl refl (λ w x. inl refl)

    wake-Owned :
        (b : Bool)
        → s.request ≡ waiting
        → Owned api n
            (record s { pool = record (s.pool) { request_ready = b }; request = draining })
    wake-Owned b m =
        moved (λ g a. omega (arith, ap (λ t. g (held_request t)) m)) refl refl (λ w x. cc w)

    time_out-Owned : s.request ≡ waiting → Owned api n (record s { request = draining })
    time_out-Owned m =
        moved (λ g a. omega (arith, ap (λ t. g (held_request t)) m)) refl refl (λ w x. cc w)

  -- Every step keeps the slots owned.
  pub Step-Owned : (n : ℕ) {s t : System api} → Owned api n s → Step api s t → Owned api n t
  Step-Owned n o (take idx p m e) = take-Owned n o idx p m e
  Step-Owned n o (write idx f m) = moved n o (λ g a. refl) refl refl (λ w x. o.noticed w x)
  Step-Owned n o (put idx m) = put-Owned n o idx m
  Step-Owned n o (tell m) = tell-Owned n o m
  Step-Owned n o (discard idx m) = discard-Owned n o idx m
  Step-Owned n o (wake m) = wake-Owned n o false m
  Step-Owned n o (time_out m) = time_out-Owned n o m
  Step-Owned n o (fetch idx p m e) = fetch-Owned n o idx p m e
  Step-Owned n o (rest m e) = rest-Owned n o m e
  Step-Owned n o (finish idx m) = finish-Owned n o idx m
