-- ===== src/Rpc/Protocol.antt =====
-- The slots under the two tasks that share them: the esp-mqtt task, which fills a slot and submits it
-- (sc_mqtt.cpp, `start_request`, `handle_data` and `event_handler`), and the request task, which
-- waits for the event bit and drains the ready queue (sc_client.cpp `run_task`, sc_rpc.cpp
-- `handle_ready`). A step is one call of FreeRTOS, or a write into a slot.
pub mod Invariant
pub mod Laws
use esp_soulcloud_client.Prelude.{
  ℕ, zero, suc, ◌+◌, ◌-◌, ◌≤◌, ◌<◌, List, [], ◌∷◌, ◌++◌, ◌≡◌, ◌≢◌, refl, sym, ap, ◌∙◌, ◌⊎◌, inl,
  inr, Bool, true, false, Option, none, some, Bytes, length, count, count-append, length-append,
  ltb, ◌==◌, if◌then◌else◌, Option-cases, arith,
}
use esp_soulcloud_client.Rpc.Queue.{Queues}
use esp_soulcloud_client.Rpc.Slots.{
  Slot, Pool, init, fill, send_or_keep, update_slot, take_free_slot, put_ready, announce, give_back,
  take_ready,
}

pub data MqttTask : Type 0 where
  idle : MqttTask
  filling : ℕ → MqttTask
  announcing : MqttTask

pub data RequestTask : Type 0 where
  waiting draining : RequestTask
  handling : ℕ → RequestTask

abbrev pub held_mqtt : MqttTask → List ℕ
held_mqtt idle = []
held_mqtt (filling idx) = idx ∷ []
held_mqtt announcing = []

abbrev pub held_request : RequestTask → List ℕ
held_request waiting = []
held_request draining = []
held_request (handling idx) = idx ∷ []

module _ (api : Queues) where
  open api use {
    Queue, contents, capacity, send_room, receive_empty, receive_first, contents-create,
    capacity-create,
  }

  pub record System : Type 0 where
    pub pool : Pool api
    pub mqtt : MqttTask
    pub request : RequestTask

  pub data Step (s : System) : System → Type 0 where
    take :
        (idx : ℕ) (p : Pool api)
        → s.mqtt ≡ idle
        → take_free_slot api s.pool ≡ some (idx, p)
        → Step s (record s { pool = p; mqtt = filling idx })
    write :
        (idx : ℕ) (f : Slot → Slot)
        → s.mqtt ≡ filling idx
        → Step s (record s { pool = record (s.pool) { slots = update_slot f s.pool.slots idx } })
    put :
        (idx : ℕ)
        → s.mqtt ≡ filling idx
        → Step s (record s { pool = put_ready api s.pool idx; mqtt = announcing })
    tell : s.mqtt ≡ announcing → Step s (record s { pool = announce api s.pool; mqtt = idle })
    discard :
        (idx : ℕ)
        → s.mqtt ≡ filling idx
        → Step s (record s { pool = give_back api s.pool idx; mqtt = idle })
    wake :
        s.request ≡ waiting
        → Step s (record s { pool = record (s.pool) { request_ready = false }; request = draining })
    time_out : s.request ≡ waiting → Step s (record s { request = draining })
    fetch :
        (idx : ℕ) (p : Pool api)
        → s.request ≡ draining
        → take_ready api s.pool ≡ some (idx, p)
        → Step s (record s { pool = p; request = handling idx })
    rest :
        s.request ≡ draining
        → take_ready api s.pool ≡ none
        → Step s (record s { request = waiting })
    finish :
        (idx : ℕ)
        → s.request ≡ handling idx
        → Step s (record s { pool = give_back api s.pool idx; request = draining })

  pub data Reach (s : System) : System → Type 0 where
    here : Reach s s
    next : {t u : System} → Reach s t → Step t u → Reach s u

  abbrev pub booted : ℕ → ℕ → System
  booted queue_len payload_max = record {
    pool = init api queue_len payload_max;
    mqtt = idle;
    request = waiting;
  }

  -- Every slot is in one place.
  pub record Owned (n : ℕ) (s : System) : Type 0 where
    pub free_capacity : capacity s.pool.free_slots ≡ n
    pub ready_capacity : capacity s.pool.ready_slots ≡ n
    pub total :
        length (contents s.pool.free_slots)
          + length (contents s.pool.ready_slots)
          + length (held_mqtt s.mqtt)
          + length (held_request s.request)
        ≡ n
    pub once :
        (idx : ℕ)
        → count idx (contents s.pool.free_slots)
            + count idx (contents s.pool.ready_slots)
            + count idx (held_mqtt s.mqtt)
            + count idx (held_request s.request)
          ≡ (if ltb idx n then 1 else 0)
    pub noticed :
        s.request ≡ waiting
        → contents s.pool.ready_slots ≢ []
        → (s.pool.request_ready ≡ true) ⊎ (s.mqtt ≡ announcing)
