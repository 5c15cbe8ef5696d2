-- ===== src/Mqtt/Publish/Sent.antt =====
-- When a message is handed over, and why one is refused.
use esp_soulcloud_client.Prelude.{
  ℕ, ◌+◌, ◌<◌, ◌∷◌, ◌++◌, ◌≡◌, ◌≢◌, refl, ◌⊎◌, inl, inr, true, false, not, some, Bytes, length, leb,
  if_cases, length-append, arith,
}
use esp_soulcloud_client.Esp.{EspErr}
use esp_soulcloud_client.Mqtt.Data.{has_prefix}
use esp_soulcloud_client.Mqtt.Publish.{
  Client, Message, PublishProps, Sender, set_props, hand_over, publish_topic, publish,
}
use esp_soulcloud_client.Mqtt.Publish.Below.{sent_result_lem, has_prefix-append}

module _ (api : Client) where
  hand_over-refused :
      (s : Sender api) (m : Message) (ret : EspErr)
      → (hand_over api s m ret).0 ≡ EspErr.invalid_arg
      → ret ≡ EspErr.invalid_arg
  unfolding hand_over
  hand_over-refused s m EspErr.esp_ok e =
      absurd (sent_result_lem api (api.send s.world m.topic m.body m.qos).0 e)
  hand_over-refused s m _ e = e

  -- Where a message with the prefix is refused with ESP_ERR_INVALID_ARG, esp-mqtt refused its properties.
  pub publish_topic-refused :
      (s : Sender api) (m : Message) (props : PublishProps)
      → has_prefix s.prefix m.topic ≡ true
      → (publish_topic api s m (some props)).0 ≡ EspErr.invalid_arg
      → (api.set_property (api.lock (api.connected s.world).1).1 props).0 ≡ EspErr.invalid_arg
  unfolding publish_topic
  publish_topic-refused s m props own = rw own (
      let c = api.connected s.world in
      let l = api.lock c.1 in
      let p = set_props api (record s { world = l.1 }) (some props) in
      let Refused : EspErr × Sender api → Type 0 =
        λ r. r.0 ≡ EspErr.invalid_arg → p.0 ≡ EspErr.invalid_arg in
      if_cases Refused (not c.0) (λ off e. absurd (ground (arith, e)))
        (λ on.
          if_cases Refused (not l.0) (λ busy e. absurd (ground (arith, e)))
            (λ free. hand_over-refused p.1 m p.0)))

  -- Why a message with properties is not handed over in this world: the client is not connected, the
  -- mutex is taken, or esp-mqtt refuses the properties.
  abbrev pub Blocked : api.World → PublishProps → Type 0
  Blocked w props =
      ((api.connected w).0 ≡ false)
      ⊎ ((api.lock (api.connected w).1).0 ≡ false)
      ⊎ ((api.set_property (api.lock (api.connected w).1).1 props).0 ≢ EspErr.esp_ok)

  hand_over-sent :
      (s : Sender api) (m : Message) (ret : EspErr)
      → (ret ≢ EspErr.esp_ok) ⊎ ((hand_over api s m ret).1.outbox ≡ m ∷ s.outbox)
  unfolding hand_over
  hand_over-sent s m EspErr.esp_ok = inr refl
  hand_over-sent s m _ = inl (λ e. absurd (ground (arith, e)))

  -- A message with the prefix is handed over unless it is blocked.
  pub publish_topic-sent :
      (s : Sender api) (m : Message) (props : PublishProps)
      → has_prefix s.prefix m.topic ≡ true
      → Blocked s.world props ⊎ ((publish_topic api s m (some props)).1.outbox ≡ m ∷ s.outbox)
  unfolding publish_topic
  publish_topic-sent s m props own = rw own (
      let c = api.connected s.world in
      let l = api.lock c.1 in
      let p = set_props api (record s { world = l.1 }) (some props) in
      let Sent : EspErr × Sender api → Type 0 =
        λ r. Blocked s.world props ⊎ (r.1.outbox ≡ m ∷ s.outbox) in
      if_cases Sent (not c.0) (λ off. inl (inl (ground (arith, off))))
        (λ on.
          if_cases Sent (not l.0) (λ busy. inl (inr (inl (ground (arith, busy)))))
            (λ free. elim (hand_over-sent p.1 m p.0) [
              | inl refused ↦ inl (inr (inr refused))
              | inr sent ↦ inr sent
            ])))

  -- Where the whole topic has less than 96 bytes, the message is handed over unless it is blocked.
  pub publish-sent :
      (s : Sender api) (sub_topic body : Bytes) (qos : ℕ) (props : PublishProps)
      → length s.prefix + length sub_topic < 96
      → Blocked s.world props
        ⊎ ((publish api s sub_topic body qos (some props)).1.outbox
            ≡ record { topic = s.prefix ++ sub_topic; body = body; qos = qos } ∷ s.outbox)
  unfolding publish
  publish-sent s sub_topic body qos props short =
      let n = length-append s.prefix sub_topic in
      let fits : leb 96 (length (s.prefix ++ sub_topic)) ≡ false = ground (arith, n, short) in
      rw fits (
        publish_topic-sent s (record { topic = s.prefix ++ sub_topic; body = body; qos = qos })
          props (has_prefix-append api s.prefix sub_topic))
