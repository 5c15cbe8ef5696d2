-- ===== src/Tests/Requests.antt =====
-- A concrete pool of slots, a request in two events, a call and a method table.
use esp_soulcloud_client.Prelude.{
  ℕ, ◌+◌, [], ◌∷◌, List, ◌≡◌, ◌≢◌, refl, ◌⊎◌, inl, Bool, true, false, Option, none, some, codes,
  replicate, take, count, ltb, if◌then◌else◌, arith, equal,
}
use esp_soulcloud_client.Esp.{EspErr}
use esp_soulcloud_client.Mqtt.Data.{Receiver, drop_partial, handle_data, write_request}
use esp_soulcloud_client.Mqtt.Data.Fragments.{Submitted, feed}
use esp_soulcloud_client.Mqtt.Data.Requests.{first_event, request_reassembled}
use esp_soulcloud_client.Rpc.Answer.{Call, is_ours}
use esp_soulcloud_client.Rpc.Answer.Laws.{deliver_all, deliver_all-answer, deliver_all-too_large}
use esp_soulcloud_client.Rpc.Methods.{
  MethodEntry, add_method, find_method, put_method, add_method-find_method,
}
use esp_soulcloud_client.Rpc.Protocol.{
  System, Reach, here, next, take as take_slot, put, tell, wake, fetch, idle, filling, announcing,
  waiting, draining, handling, held_mqtt, held_request, booted,
}
use esp_soulcloud_client.Rpc.Protocol.Laws.{
  Reach-once, Reach-send_filled, Reach-exclusive, Reach-noticed,
}
use esp_soulcloud_client.Rpc.Queue.{Bounded, list_queues}
use esp_soulcloud_client.Rpc.Slots.{
  Pool, empty_slot, cleared, init, fill, take_free_slot, take_ready, put_ready, announce,
}

-- Two slots of four bytes: one request is taken, put and told of, and a second one is taken.
abbrev start : System list_queues
start = booted list_queues 2 4

abbrev pool_of : List ℕ → List ℕ → Bool → Pool list_queues
pool_of free ready told = record {
  slots = replicate 2 (empty_slot 4);
  free_slots = record { items = free; bound = 2 };
  ready_slots = record { items = ready; bound = 2 };
  request_ready = told;
}

abbrev first_taken : System list_queues
first_taken = record { pool = pool_of (1 ∷ []) [] false; mqtt = filling 0; request = waiting }

abbrev first_put : System list_queues
first_put = record { pool = pool_of (1 ∷ []) (0 ∷ []) false; mqtt = announcing; request = waiting }

abbrev first_told : System list_queues
first_told = record { pool = pool_of (1 ∷ []) (0 ∷ []) true; mqtt = idle; request = waiting }

abbrev second_taken : System list_queues
second_taken = record { pool = pool_of [] (0 ∷ []) true; mqtt = filling 1; request = waiting }

abbrev woken : System list_queues
woken = record { pool = pool_of [] (0 ∷ []) false; mqtt = filling 1; request = draining }

abbrev fetched : System list_queues
fetched = record { pool = pool_of [] [] false; mqtt = filling 1; request = handling 0 }

Reach-put : Reach list_queues start first_put
unfolding init fill take_free_slot put_ready
Reach-put = next (next here (take_slot 0 (pool_of (1 ∷ []) [] false) refl refl)) (put 0 refl)

Reach-fetched : Reach list_queues start fetched
unfolding init fill take_free_slot take_ready put_ready announce
Reach-fetched =
    next
      (next (next (next Reach-put (tell refl)) (take_slot 1 (pool_of [] (0 ∷ []) true) refl refl))
        (wake refl))
      (fetch 0 (pool_of [] [] false) refl refl)

Reach-once_example :
    count 1 []
      + count 1 []
      + count 1 (held_mqtt fetched.mqtt)
      + count 1 (held_request fetched.request)
    ≡ (if ltb 1 2 then 1 else 0)
Reach-once_example = Reach-once list_queues 2 4 1 Reach-fetched

Reach-send_filled_example :
    ((q : Bounded) × (list_queues.send fetched.pool.ready_slots 1 ≡ some q))
    × ((q : Bounded) × (list_queues.send fetched.pool.free_slots 1 ≡ some q))
Reach-send_filled_example = Reach-send_filled list_queues 2 4 1 Reach-fetched refl

Reach-exclusive_example : ◌≢◌ {A = ℕ} 1 0
Reach-exclusive_example = Reach-exclusive list_queues 2 4 1 0 Reach-fetched refl refl

some_ready : ◌≢◌ {A = List ℕ} (0 ∷ []) []
some_ready e = absurd (ground (arith, e))

Reach-noticed_example : (first_put.pool.request_ready ≡ true) ⊎ (first_put.mqtt ≡ announcing)
Reach-noticed_example = Reach-noticed list_queues 2 4 Reach-put refl some_ready

-- A call that waits for the answer c7.
abbrev call : Call
call = record {
  buf = replicate 1024 0;
  correlation = codes "c7";
  len = 0;
  overflow = false;
  done = false;
}

call_ours : is_ours call (codes "c7") ≡ true
unfolding is_ours equal
call_ours = refl

deliver_all-answer_example :
    let d = deliver_all call (codes "c7") 5 0 (codes "{\"o" ∷ codes "k}" ∷ []) in
    (take 5 d.buf ≡ codes "{\"ok}") × (d.len ≡ 5) × (d.overflow ≡ false) × (d.done ≡ true)
deliver_all-answer_example =
    deliver_all-answer call (codes "c7") (codes "{\"o") (codes "k}" ∷ []) call_ours refl refl
      (omega arith)

deliver_all-too_large_example :
    let d = deliver_all call (codes "c7") 1030 0 (replicate 1000 1 ∷ replicate 30 1 ∷ []) in
    (d.overflow ≡ true) × (d.done ≡ true)
deliver_all-too_large_example =
    deliver_all-too_large call (codes "c7") (replicate 1000 1) (replicate 30 1 ∷ []) call_ours
      (omega arith)

other_call : codes "c6" ≢ codes "c7"
other_call e = absurd (ground (arith, e))

-- A request in two events.
abbrev receiver : Receiver list_queues
receiver = record {
  down_topic = codes "d/x/down/";
  rx_slot = none;
  rx_response = true;
  rx_correlation = [];
  pool = pool_of (0 ∷ 1 ∷ []) [] false;
  call = call;
}

receiver_free :
    take_free_slot list_queues (drop_partial list_queues 4 receiver).pool
    ≡ some (0, pool_of (1 ∷ []) [] false)
unfolding take_free_slot drop_partial
receiver_free = refl

request_reassembled_example :
    let evt = first_event receiver.down_topic (codes "log/config") 3 none (codes "{") in
    Submitted list_queues 4 0
      (write_request 4 evt (codes "log/config") (cleared (empty_slot 4)))
      (codes "{ }")
      (feed list_queues 4 (handle_data list_queues 4 receiver evt) 3 1 (codes " }" ∷ []))
    × ((write_request 4 evt (codes "log/config") (cleared (empty_slot 4))).method
        ≡ codes "log.config")
request_reassembled_example =
    request_reassembled list_queues 4 receiver (codes "log/config") (codes "{") (codes " }" ∷ [])
      none 0 (pool_of (1 ∷ []) [] false) (empty_slot 4) (omega arith) receiver_free refl refl
      (inl (omega arith)) (omega arith, tt) (omega arith)

-- A table of two methods, one of them free.
abbrev methods : List (Option (MethodEntry ℕ))
methods = some (record { name = codes "ping"; handler = 1 }) ∷ none ∷ []

ping_added : (add_method ℕ (some (codes "ping")) (some 2) methods).0 ≡ EspErr.esp_ok
unfolding add_method put_method equal
ping_added = refl

add_method-find_method_example :
    find_method ℕ (codes "ping") (add_method ℕ (some (codes "ping")) (some 2) methods).1 ≡ (
      if equal (codes "ping") (codes "ping")
      then some (record { name = codes "ping"; handler = 2 })
      else find_method ℕ (codes "ping") methods)
add_method-find_method_example =
    add_method-find_method ℕ (codes "ping") (codes "ping") 2 methods ping_added
