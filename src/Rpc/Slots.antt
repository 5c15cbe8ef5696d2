-- ===== src/Rpc/Slots.antt =====
-- The request slots of `sc_rpc`: `sc_rpc_slot`, `init`, `take_free_slot`, `submit` and `give_back`.
use esp_soulcloud_client.Prelude.{
  ℕ, zero, suc, ◌+◌, List, [], ◌∷◌, Bool, true, false, Option, none, some, Bytes, replicate,
}
use esp_soulcloud_client.Rpc.Queue.{Queues}

-- One request. `correlation` is the part of the array that `correlation_len` counts; `method` and
-- `response_topic` are C strings; `payload` is the whole array of SOULCLOUD_RPC_PAYLOAD_MAX + 1.
pub record Slot : Type 0 where
  pub too_large : Bool
  pub correlation : Bytes
  pub payload_len : ℕ
  pub method : Bytes
  pub response_topic : Bytes
  pub payload : Bytes

abbrev pub empty_slot : ℕ → Slot
empty_slot payload_max = record {
  too_large = false;
  correlation = [];
  payload_len = 0;
  method = [];
  response_topic = [];
  payload = replicate (payload_max + 1) 0;
}

-- What `take_free_slot` clears: all but the payload itself.
abbrev pub cleared : Slot → Slot
cleared s = record s {
  too_large = false;
  correlation = [];
  payload_len = 0;
  method = [];
  response_topic = [];
}

abbrev pub update_slot : (Slot → Slot) → List Slot → ℕ → List Slot
update_slot f [] idx = []
update_slot f (s ∷ ss) zero = f s ∷ ss
update_slot f (s ∷ ss) (suc idx) = s ∷ update_slot f ss idx

module _ (api : Queues) where
  open api use {Queue, create, send, receive}

  -- `request_ready` is the event bit that `submit` sets and the request task waits for.
  pub record Pool : Type 0 where
    pub slots : List Slot
    pub free_slots : Queue
    pub ready_slots : Queue
    pub request_ready : Bool

  -- Where a queue is full, `xQueueSend` without waiting leaves it alone; the code ignores that.
  abbrev pub send_or_keep : Queue → ℕ → Queue
  send_or_keep q idx = elim (send q idx) [ none ↦ q | some q' ↦ q' ]

  -- The loop of `init` over the slot indices, `rounds` of them from `idx` on.
  unfoldable pub fill : ℕ → ℕ → Queue → Queue
  fill zero idx q = q
  fill (suc rounds) idx q = fill rounds (suc idx) (send_or_keep q idx)

  -- `init`, where every allocation succeeds: all slots are free.
  unfoldable pub init : ℕ → ℕ → Pool
  init queue_len payload_max = record {
    slots = replicate queue_len (empty_slot payload_max);
    free_slots = fill queue_len 0 (create queue_len);
    ready_slots = create queue_len;
    request_ready = false;
  }

  -- `none` where no slot is free.
  unfoldable pub take_free_slot : Pool → Option (ℕ × Pool)
  take_free_slot p = elim (receive p.free_slots) [
    | none ↦ none
    | some (idx, q) ↦
        some (idx, record p { slots = update_slot cleared p.slots idx; free_slots = q })
  ]

  -- The two statements of `submit`.
  unfoldable pub put_ready : Pool → ℕ → Pool
  put_ready p idx = record p { ready_slots = send_or_keep p.ready_slots idx }

  unfoldable pub announce : Pool → Pool
  announce p = record p { request_ready = true }

  unfoldable pub submit : Pool → ℕ → Pool
  submit p idx = announce (put_ready p idx)

  unfoldable pub give_back : Pool → ℕ → Pool
  give_back p idx = record p { free_slots = send_or_keep p.free_slots idx }

  -- The test of the loop of `handle_ready`.
  unfoldable pub take_ready : Pool → Option (ℕ × Pool)
  take_ready p = elim (receive p.ready_slots) [
    | none ↦ none
    | some (idx, q) ↦ some (idx, record p { ready_slots = q })
  ]
