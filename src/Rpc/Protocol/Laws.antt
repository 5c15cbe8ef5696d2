-- ===== src/Rpc/Protocol/Laws.antt =====
-- What the two tasks may rely on, in every state that the client can reach after `sc_rpc::init`.
use esp_soulcloud_client.Prelude.{
  ℕ, zero, suc, ◌+◌, ◌≤◌, List, [], ◌∷◌, ◌++◌, ◌≡◌, ◌≢◌, refl, sym, ap, ◌∙◌, ◌⊎◌, true, ◌&&◌, some,
  length, count, length-append, ltb, leb, if◌then◌else◌, append-nil, append_assoc, arith,
}
use esp_soulcloud_client.Rpc.Protocol.Invariant.{
  send-Sent, Step-Owned, ready_room, free_room_mqtt, free_room_request,
}
use esp_soulcloud_client.Rpc.Protocol.{
  filling, announcing, waiting, handling, held_mqtt, held_request, System, Reach, here, next,
  booted, Owned,
}
use esp_soulcloud_client.Rpc.Queue.{Queues}
use esp_soulcloud_client.Rpc.Slots.{init, fill, send_or_keep}

-- The indices `start`, `start + 1`, …, `rounds` of them.
abbrev indices : ℕ → ℕ → List ℕ
indices start zero = []
indices start (suc rounds) = start ∷ indices (suc start) rounds

length-indices : (start rounds : ℕ) → length (indices start rounds) ≡ rounds
length-indices start zero = refl
length-indices start (suc rounds) = ap suc (length-indices (suc start) rounds)

count-indices :
    (i start rounds : ℕ)
    → count i (indices start rounds) ≡ (if leb start i && ltb i (start + rounds) then 1 else 0)
count-indices i start zero = ground arith
count-indices i start (suc rounds) = ground (arith, count-indices i (suc start) rounds)

module _ (api : Queues) where
  open api use {
    Queue, send, contents, capacity, create, contents-create, capacity-create, send_room,
  }

  fill_lem :
      (rounds start : ℕ) (q : Queue)
      → length (contents q) + rounds ≤ capacity q
      → (contents (fill api rounds start q) ≡ contents q ++ indices start rounds)
        × (capacity (fill api rounds start q) ≡ capacity q)
  unfolding fill
  fill_lem zero start q h = (sym (append-nil (contents q)), refl)
  fill_lem (suc rounds) start q h =
      let (c, k) = send-Sent api q start (omega arith) in
      let q' = send_or_keep api q start in
      let (d, l) =
        fill_lem rounds (suc start) q'
          (omega (arith, k, ap length c, length-append (contents q) (start ∷ []))) in
      (
        d
            ∙ ap (λ xs. xs ++ indices (suc start) rounds) c
            ∙ append_assoc (contents q) (start ∷ []) (indices (suc start) rounds),
        l ∙ k,
      )

  module _ (n payload_max : ℕ) where
    booted-Owned : Owned api n (booted api n payload_max)
    unfolding init
    booted-Owned =
        let (c, k) =
          fill_lem n 0 (create n)
            (omega (arith, ap length (contents-create n), capacity-create n)) in
        let free = c ∙ ap (λ xs. xs ++ indices 0 n) (contents-create n) in
        let none_ready = contents-create n in
        record {
          free_capacity = k ∙ capacity-create n;
          ready_capacity = capacity-create n;
          total = omega (arith, ap length free, length-indices 0 n, ap length none_ready);
          once =
              λ i. ground (arith, ap (count i) free, count-indices i 0 n, ap (count i) none_ready);
          noticed = λ w x. absurd (x none_ready);
        }

    Reach-Owned : {s : System api} → Reach api (booted api n payload_max) s → Owned api n s
    Reach-Owned here = booted-Owned
    Reach-Owned (next r st) = Step-Owned api n (Reach-Owned r) st

    -- In every state that is reached from `init` with `n` slots, whatever the two tasks do and in
    -- whatever order: each slot index below `n` is in exactly one place, which is one of the free
    -- queue, the ready queue, the hands of the esp-mqtt task and those of the request task; no
    -- other index is in any.
    pub Reach-once :
        {s : System api} (idx : ℕ)
        → Reach api (booted api n payload_max) s
        → count idx (contents s.pool.free_slots)
            + count idx (contents s.pool.ready_slots)
            + count idx (held_mqtt s.mqtt)
            + count idx (held_request s.request)
          ≡ (if ltb idx n then 1 else 0)
    Reach-once idx r = (Reach-Owned r).once idx

    -- In every state that is reached from `init` with `n` slots: where the esp-mqtt task has a slot in
    -- hand, the ready queue and the free queue both have room for its index.
    pub Reach-send_filled :
        {s : System api} (idx : ℕ)
        → Reach api (booted api n payload_max) s
        → s.mqtt ≡ filling idx
        → ((q : Queue) × (send s.pool.ready_slots idx ≡ some q))
          × ((q : Queue) × (send s.pool.free_slots idx ≡ some q))
    Reach-send_filled {s} idx r m =
        let o = Reach-Owned r in
        let a = send_room s.pool.ready_slots idx (ready_room api n o idx m) in
        let b = send_room s.pool.free_slots idx (free_room_mqtt api n o idx m) in
        ((a.0, a.1), (b.0, b.1))

    -- In every state that is reached from `init` with `n` slots: where the request task has a slot in
    -- hand, the free queue has room for its index.
    pub Reach-send_handled :
        {s : System api} (idx : ℕ)
        → Reach api (booted api n payload_max) s
        → s.request ≡ handling idx
        → (q : Queue) × (send s.pool.free_slots idx ≡ some q)
    Reach-send_handled {s} idx r m =
        let c = send_room s.pool.free_slots idx (free_room_request api n (Reach-Owned r) idx m) in
        (c.0, c.1)

    -- In every state that is reached from `init`: the two tasks never hold the same slot.
    pub Reach-exclusive :
        {s : System api} (i j : ℕ)
        → Reach api (booted api n payload_max) s
        → s.mqtt ≡ filling i
        → s.request ≡ handling j
        → i ≢ j
    Reach-exclusive {s} i j r m q e =
        let o = (Reach-Owned r).once i in
        ground (arith, o, ap (λ t. count i (held_mqtt t)) m, ap (λ t. count i (held_request t)) q)

    -- In every state that is reached from `init`: while the request task waits and a request stands
    -- in the ready queue, the event bit is set, or the esp-mqtt task is about to set it.
    pub Reach-noticed :
        {s : System api}
        → Reach api (booted api n payload_max) s
        → s.request ≡ waiting
        → contents s.pool.ready_slots ≢ []
        → (s.pool.request_ready ≡ true) ⊎ (s.mqtt ≡ announcing)
    Reach-noticed r = (Reach-Owned r).noticed
