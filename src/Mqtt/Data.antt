-- ===== src/Mqtt/Data.antt =====
-- `sc_mqtt::handle_data` and `start_request`: messages from the platform, which esp-mqtt may hand
-- over in several events (sc_mqtt.cpp lines 167 to 239).
pub mod Fragments
pub mod Requests
use esp_soulcloud_client.Prelude.{
  ℕ, zero, suc, ◌+◌, ◌-◌, ◌≤◌, ◌<◌, List, [], ◌∷◌, ◌++◌, map, ◌≡◌, refl, Bool, true, false, not,
  ◌&&◌, ◌||◌, Option, none, some, Bytes, codes, length, take, drop, set, copy_at, equal, ltb, leb,
  ◌==◌, if◌then◌else◌,
}
use esp_soulcloud_client.Rpc.Answer.{Call, deliver_response}
use esp_soulcloud_client.Rpc.Queue.{Queues}
use esp_soulcloud_client.Rpc.Slots.{Slot, Pool, update_slot, take_free_slot, submit, give_back}

-- The MQTT 5 properties of a message that the code reads.
pub record Props : Type 0 where
  pub correlation_data : Bytes
  pub response_topic : Bytes

-- `esp_mqtt_event_t`. Only the first event of a message has a topic and properties.
pub record Event : Type 0 where
  pub topic : Bytes
  pub payload : Bytes
  pub current_data_offset : ℕ
  pub total_data_len : ℕ
  pub property : Option Props

-- The members of `sc_mqtt` that the esp-mqtt task works on, and the `sc_rpc` behind them.
pub record Receiver (api : Queues) : Type 0 where
  pub down_topic : Bytes
  pub rx_slot : Option ℕ
  pub rx_response : Bool
  pub rx_correlation : Bytes
  pub pool : Pool api
  pub call : Call

abbrev pub dot : ℕ → ℕ
dot c = if c == b'/' then b'.' else c

abbrev pub has_prefix : Bytes → Bytes → Bool
has_prefix prefix text = equal (take (length prefix) text) prefix

abbrev pub take_correlation : Option Props → Slot → Slot
take_correlation none s = s
take_correlation (some p) s =
    if ltb 0 (length p.correlation_data) && leb (length p.correlation_data) 64
    then record s { correlation = p.correlation_data }
    else s

abbrev pub take_response_topic : Option Props → Slot → Slot
take_response_topic none s = s
take_response_topic (some p) s =
    if ltb 0 (length p.response_topic) && ltb (length p.response_topic) 96
    then record s { response_topic = p.response_topic }
    else s

-- What `start_request` writes into the slot. The array `method` holds 48 bytes, a NUL among them.
unfoldable pub write_request : ℕ → Event → Bytes → Slot → Slot
write_request payload_max evt method s =
    record (take_response_topic evt.property
      (take_correlation evt.property (record s { method = map dot (take 47 method) }))) {
        too_large = ltb payload_max evt.total_data_len;
      }

-- The bytes of one event go into the slot in hand.
unfoldable pub write_payload : ℕ → Event → Slot → Slot
write_payload payload_max evt s =
    if not s.too_large && leb (evt.current_data_offset + length evt.payload) payload_max
    then record s {
      payload = copy_at s.payload evt.current_data_offset evt.payload;
      payload_len = evt.current_data_offset + length evt.payload;
    }
    else s

abbrev pub close_payload : Slot → Slot
close_payload s = record s { payload = set s.payload s.payload_len 0 }

module _ (api : Queues) (payload_max : ℕ) where
  unfoldable pub start_request : Receiver api → Event → Bytes → Receiver api
  start_request st evt method = elim (take_free_slot api st.pool) [
    | none ↦ record st { rx_slot = none }
    | some (idx, p) ↦ record st {
      rx_slot = some idx;
      pool = record p { slots = update_slot (write_request payload_max evt method) p.slots idx };
    }
  ]

  -- `rx_correlation` and its length, for a message on the topic `res`.
  unfoldable pub start_response : Receiver api → Event → Receiver api
  start_response st evt = elim evt.property [
    | none ↦ record st { rx_response = true; rx_correlation = [] }
    | some p ↦ record st {
      rx_response = true;
      rx_correlation = if leb (length p.correlation_data) 64 then p.correlation_data else [];
    }
  ]

  unfoldable pub drop_partial : Receiver api → Receiver api
  drop_partial st = elim st.rx_slot [
    | none ↦ record st { rx_response = false }
    | some idx ↦ record st { pool = give_back api st.pool idx; rx_slot = none; rx_response = false }
  ]

  unfoldable pub route : Receiver api → Event → Bytes → Receiver api
  route st evt sub =
      if ltb 4 (length sub) && has_prefix (codes "req/") sub
      then start_request st evt (drop 4 sub)
      else if equal sub (codes "res")
      then start_response st evt
      else st

  unfoldable pub take_payload : Receiver api → Event → ℕ → Receiver api
  take_payload st evt idx =
      let slots = update_slot (write_payload payload_max evt) st.pool.slots idx in
      if leb evt.total_data_len (evt.current_data_offset + length evt.payload)
      then record st {
        pool = submit api (record (st.pool) { slots = update_slot close_payload slots idx }) idx;
        rx_slot = none;
      }
      else record st { pool = record (st.pool) { slots = slots } }

  unfoldable pub take_data : Receiver api → Event → Receiver api
  take_data st evt =
      if st.rx_response
      then record st {
        call =
            deliver_response st.call st.rx_correlation evt.payload evt.current_data_offset
              evt.total_data_len;
      }
      else elim st.rx_slot [ none ↦ st | some idx ↦ take_payload st evt idx ]

  -- A first event on a topic that is not below `down_topic` is left at once.
  unfoldable pub handle_data : Receiver api → Event → Receiver api
  handle_data st evt =
      if evt.current_data_offset == 0
      then (let st' = drop_partial st in
          if leb (length evt.topic) (length st'.down_topic)
            || not (has_prefix st'.down_topic evt.topic)
          then st'
          else take_data (route st' evt (drop (length st'.down_topic) evt.topic)) evt)
      else take_data st evt
