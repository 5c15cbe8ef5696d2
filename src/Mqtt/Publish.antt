-- ===== src/Mqtt/Publish.antt =====
-- `sc_mqtt::publish` and `publish_topic`, and the topics that `init` makes (src/sc_mqtt.cpp lines 20 to 21
-- and 73 to 114).
pub mod Below
pub mod Sent
use esp_soulcloud_client.Prelude.{
  ℕ, zero, suc, ◌+◌, List, [], ◌∷◌, ◌++◌, Bool, true, false, not, Option, none, some, Bytes, codes,
  length, take, leb, ltb, if◌then◌else◌, ℤ, pos, negsuc,
}
use esp_soulcloud_client.Esp.{EspErr}
use esp_soulcloud_client.Mqtt.Data.{has_prefix}

-- `sc_publish_props`.
pub record PublishProps : Type 0 where
  pub content_type : Bytes
  pub correlation : Bytes
  pub response_topic : Option Bytes

-- esp-mqtt's client and the mutex, in a world that other tasks change too: `connected` reads
-- `is_connected`, `lock` is `xSemaphoreTake` with its timeout, `set_property` is
-- `esp_mqtt5_client_set_publish_property`, and `send` is `esp_mqtt_client_publish` with its message id.
pub record Client : Type 1 where
  pub World : Type 0
  pub connected : World → Bool × World
  pub lock : World → Bool × World
  pub give : World → World
  pub set_property : World → PublishProps → EspErr × World
  pub send : World → Bytes → Bytes → ℕ → ℤ × World

-- A message that was handed to `esp_mqtt_client_publish`.
pub record Message : Type 0 where
  pub topic : Bytes
  pub body : Bytes
  pub qos : ℕ

-- `snprintf` into the array `up_topic` or `down_topic` of 32 bytes.
abbrev pub up_topic : Bytes → Bytes
up_topic device_id = take 31 (codes "d/" ++ (device_id ++ codes "/up/"))

abbrev pub down_topic : Bytes → Bytes
down_topic device_id = take 31 (codes "d/" ++ (device_id ++ codes "/down/"))

-- What the message id says.
abbrev pub sent_result : ℤ → EspErr
sent_result (pos id) = EspErr.esp_ok
sent_result (negsuc zero) = EspErr.esp_fail
sent_result (negsuc (suc zero)) = EspErr.no_mem
sent_result (negsuc (suc (suc n))) = EspErr.esp_fail

module _ (api : Client) where
  -- The sender, with the messages that it has handed over, the newest first.
  pub record Sender : Type 0 where
    pub world : api.World
    pub prefix : Bytes
    pub outbox : List Message

  abbrev pub set_props : Sender → Option PublishProps → EspErr × Sender
  set_props s none = (EspErr.esp_ok, s)
  set_props s (some props) =
      let r = api.set_property s.world props in (r.0, record s { world = r.1 })

  abbrev pub release : Sender → Sender
  release s = record s { world = api.give s.world }

  unfoldable pub hand_over : Sender → Message → EspErr → EspErr × Sender
  hand_over s m EspErr.esp_ok =
      let r = api.send s.world m.topic m.body m.qos in
      (sent_result r.0, release (record s { world = r.1; outbox = m ∷ s.outbox }))
  hand_over s m ret = (ret, release s)

  unfoldable pub publish_topic : Sender → Message → Option PublishProps → EspErr × Sender
  publish_topic s m props =
      if not (has_prefix s.prefix m.topic)
      then (EspErr.invalid_arg, s)
      else (let c = api.connected s.world in
          let l = api.lock c.1 in
          let p = set_props (record s { world = l.1 }) props in
          if not c.0
          then (EspErr.invalid_state, record s { world = c.1 })
          else if not l.0
          then (EspErr.timeout, record s { world = l.1 })
          else hand_over p.1 m p.0)

  -- The topic of `snprintf` into an array of 96 bytes.
  unfoldable pub publish : Sender → Bytes → Bytes → ℕ → Option PublishProps → EspErr × Sender
  publish s sub_topic body qos props =
      if leb 96 (length (s.prefix ++ sub_topic))
      then (EspErr.invalid_size, s)
      else publish_topic s (record { topic = s.prefix ++ sub_topic; body = body; qos = qos }) props
