-- ===== src/Mqtt/Events.antt =====
-- `sc_mqtt::event_handler`, `start` and `stop`: the state of the connection (src/sc_mqtt.cpp lines 57 to 71
-- and 116 to 162). `connection_cb` is the callback of `set_connection_cb`. The client's own, of
-- `sc_client::init`, only sets event bits; what the application is told of them is in Client/Rounds.
use esp_soulcloud_client.Prelude.{
  ℕ, ◌+◌, List, [], ◌∷◌, ◌≡◌, refl, ◌⊎◌, inl, inr, Bool, true, false, none, some, if◌then◌else◌,
  Bool-cases, arith,
}
use esp_soulcloud_client.Mqtt.Data.{Event, Receiver, handle_data}
use esp_soulcloud_client.Rpc.Queue.{Queues}
use esp_soulcloud_client.Rpc.Slots.{give_back}

-- `esp_mqtt_event_id_t`, as far as the code tells the ids apart. `connected` has what the subscription
-- gives: whether its message id is not negative.
pub data MqttEvent : Type 0 where
  connected : Bool → MqttEvent
  disconnected : MqttEvent
  data_event : Event → MqttEvent
  error_event : MqttEvent
  other_event : MqttEvent

module _ (api : Queues) (payload_max : ℕ) where
  -- The receiver with `is_connected`, the calls of `connection_cb`, the newest first, and how often the
  -- handler asked to disconnect.
  pub record Connection : Type 0 where
    pub receiver : Receiver api
    pub is_connected : Bool
    pub cb_calls : List Bool
    pub disconnects : ℕ

  unfoldable pub drop_slot : Receiver api → Receiver api
  drop_slot r = elim r.rx_slot [
    | none ↦ r
    | some idx ↦ record r { pool = give_back api r.pool idx; rx_slot = none }
  ]

  unfoldable pub event_handler : Connection → MqttEvent → Connection
  event_handler c (connected true) = record c { is_connected = true; cb_calls = true ∷ c.cb_calls }
  event_handler c (connected false) = record c { disconnects = c.disconnects + 1 }
  event_handler c disconnected = record c {
    is_connected = false;
    receiver = drop_slot c.receiver;
    cb_calls = if c.is_connected then false ∷ c.cb_calls else c.cb_calls;
  }
  event_handler c (data_event evt) = record c {
    receiver = handle_data api payload_max c.receiver evt;
  }
  event_handler c error_event = c
  event_handler c other_event = c

  -- `stop`, before it stops the client.
  abbrev pub stop : Connection → Connection
  stop c = record c { is_connected = false }

  pub data Happening : Type 0 where
    event : MqttEvent → Happening
    stopped : Happening

  unfoldable pub happen : Connection → List Happening → Connection
  happen c [] = c
  happen c (event e ∷ hs) = happen (event_handler c e) hs
  happen c (stopped ∷ hs) = happen (stop c) hs

  -- Each call with false comes directly after one with true.
  abbrev pub Paired : List Bool → Type 0
  Paired [] = Unit
  Paired (true ∷ calls) = Paired calls
  Paired (false ∷ calls) = ((rest : List Bool) × (calls ≡ true ∷ rest)) × Paired calls

  abbrev pub IsPaired : Connection → Type 0
  IsPaired c =
      Paired c.cb_calls
      × ((c.is_connected ≡ false) ⊎ ((rest : List Bool) × (c.cb_calls ≡ true ∷ rest)))

  event_handler-IsPaired :
      (c : Connection) (e : MqttEvent) → IsPaired c → IsPaired (event_handler c e)
  unfolding event_handler
  event_handler-IsPaired c (connected true) h = (h.0, inr (c.cb_calls, refl))
  event_handler-IsPaired c (connected false) h = h
  event_handler-IsPaired c disconnected h = elim (Bool-cases c.is_connected) [
    | inl on ↦ (
      rw on (elim h.1 [ inl off ↦ absurd (ground (arith, on, off)) | inr was ↦ (was, h.0) ]),
      inl refl,
    )
    | inr off ↦ (rw off h.0, inl refl)
  ]
  event_handler-IsPaired c (data_event evt) h = h
  event_handler-IsPaired c error_event h = h
  event_handler-IsPaired c other_event h = h

  -- From a state where this holds, whatever events come and whenever the client is stopped: `sc_mqtt` calls
  -- `connection_cb` with false only directly after a call with true, and while `is_connected` is set, its last
  -- call was one with true.
  pub happen-IsPaired : (hs : List Happening) (c : Connection) → IsPaired c → IsPaired (happen c hs)
  unfolding happen
  happen-IsPaired [] c h = h
  happen-IsPaired (event e ∷ hs) c h =
      happen-IsPaired hs (event_handler c e) (event_handler-IsPaired c e h)
  happen-IsPaired (stopped ∷ hs) c h = happen-IsPaired hs (stop c) (h.0, inl refl)

  -- After a lost connection no slot is in hand.
  disconnected-no_slot : (c : Connection) → (event_handler c disconnected).receiver.rx_slot ≡ none
  unfolding event_handler drop_slot
  disconnected-no_slot c = ground arith
