-- ===== src/Rpc/Queue.antt =====
-- The queues of FreeRTOS that sc_rpc.cpp calls, as an interface: `xQueueCreate`, `xQueueSend` and
-- `xQueueReceive` without waiting. Their code is not in the repository.
use esp_soulcloud_client.Prelude.{
  ℕ, ◌<◌, List, [], ◌∷◌, ◌++◌, ◌≡◌, refl, Option, none, some, length, ltb, if◌then◌else◌, arith,
}

-- A send gives the queue afterwards, or `none` (errQUEUE_FULL) and leaves it alone; a receive gives
-- the oldest entry, or `none` (pdFALSE).
pub record Queues : Type 1 where
  pub Queue : Type 0
  pub create : ℕ → Queue
  pub send : Queue → ℕ → Option Queue
  pub receive : Queue → Option (ℕ × Queue)
  pub contents : Queue → List ℕ
  pub capacity : Queue → ℕ
  pub contents-create : (n : ℕ) → contents (create n) ≡ []
  pub capacity-create : (n : ℕ) → capacity (create n) ≡ n
  pub send_room :
      (q : Queue) (x : ℕ)
      → length (contents q) < capacity q
      → (q' : Queue) × (send q x ≡ some q')
        × (contents q' ≡ contents q ++ x ∷ [])
        × (capacity q' ≡ capacity q)
  pub receive_empty : (q : Queue) → contents q ≡ [] → receive q ≡ none
  pub receive_first :
      (q : Queue) (x : ℕ) (xs : List ℕ)
      → contents q ≡ x ∷ xs
      → (q' : Queue) × (receive q ≡ some (x, q')) × (contents q' ≡ xs) × (capacity q' ≡ capacity q)

-- A queue that meets the interface: a list with a bound.
pub record Bounded : Type 0 where
  pub items : List ℕ
  pub bound : ℕ

abbrev pub send_bounded : Bounded → ℕ → Option Bounded
send_bounded q x =
    if ltb (length q.items) q.bound then some (record q { items = q.items ++ x ∷ [] }) else none

abbrev pub receive_items : List ℕ → ℕ → Option (ℕ × Bounded)
receive_items [] bound = none
receive_items (x ∷ xs) bound = some (x, record { items = xs; bound = bound })

pub bounded_send_room :
    (q : Bounded) (x : ℕ)
    → length q.items < q.bound
    → (q' : Bounded) × (send_bounded q x ≡ some q')
      × (q'.items ≡ q.items ++ x ∷ [])
      × (q'.bound ≡ q.bound)
bounded_send_room q x h = (record q { items = q.items ++ x ∷ [] }, ground arith, refl, refl)

pub bounded_receive_empty : (q : Bounded) → q.items ≡ [] → receive_items q.items q.bound ≡ none
bounded_receive_empty q h = ground arith

pub bounded_receive_first :
    (q : Bounded) (x : ℕ) (xs : List ℕ)
    → q.items ≡ x ∷ xs
    → (q' : Bounded) × (receive_items q.items q.bound ≡ some (x, q'))
      × (q'.items ≡ xs)
      × (q'.bound ≡ q.bound)
bounded_receive_first q x xs h = (record { items = xs; bound = q.bound }, ground arith, refl, refl)

abbrev pub list_queues : Queues
list_queues = record {
  Queue = Bounded;
  create = λ n. record { items = []; bound = n };
  send = send_bounded;
  receive = λ q. receive_items q.items q.bound;
  contents = λ q. q.items;
  capacity = λ q. q.bound;
  contents-create = λ n. refl;
  capacity-create = λ n. refl;
  send_room = bounded_send_room;
  receive_empty = bounded_receive_empty;
  receive_first = bounded_receive_first;
}
