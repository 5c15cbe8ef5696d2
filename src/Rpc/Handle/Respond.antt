-- ===== src/Rpc/Handle/Respond.antt =====
-- Where the answer to a request goes.
use esp_soulcloud_client.Prelude.{
  ◌+◌, ◌<◌, List, ◌∷◌, ◌++◌, ◌≡◌, ◌≢◌, refl, sym, ap, subst, ◌∙◌, ◌⊎◌, inl, inr, true, false, some,
  Bytes, codes, length, ◌==◌, if_cases, arith,
}
use esp_soulcloud_client.Esp.{EspErr}
use esp_soulcloud_client.Mqtt.Data.{has_prefix}
use esp_soulcloud_client.Mqtt.Publish.{Client, Sender, Message}
use esp_soulcloud_client.Mqtt.Publish.Below.{publish_topic-HandsOver, publish-HandsOver}
use esp_soulcloud_client.Mqtt.Publish.Sent.{
  Blocked, publish_topic-refused, publish_topic-sent, publish-sent,
}
use esp_soulcloud_client.Rpc.Handle.{is_invalid_arg, answer_props, to_response_topic, respond}
use esp_soulcloud_client.Rpc.Slots.{Slot}

module _ (api : Client) where
  abbrev pub answer_on : Bytes → Bytes → Message
  answer_on topic body = record { topic = topic; body = body; qos = 1 }

  -- Why the topic that the platform named is not used: there is none, it is not below our prefix, or
  -- esp-mqtt refuses the properties of the answer as an invalid argument.
  abbrev pub Unusable : Sender api → Slot → Type 0
  Unusable s slot =
      (length slot.response_topic ≡ 0)
      ⊎ (has_prefix s.prefix slot.response_topic ≡ false)
      ⊎ ((api.set_property (api.lock (api.connected s.world).1).1 (answer_props api slot)).0
          ≡ EspErr.invalid_arg)

  -- The topic of an answer: the one that the platform named, below our prefix, or ours for answers where
  -- that one is unusable.
  abbrev pub AnswerTopic : Sender api → Slot → Bytes → Type 0
  AnswerTopic s slot topic =
      ((topic ≡ slot.response_topic) × (0 < length topic) × (has_prefix s.prefix topic ≡ true))
      ⊎ ((topic ≡ s.prefix ++ codes "res") × Unusable s slot)

  -- Nothing was handed over and the call failed, since the answer was blocked when it was tried first or
  -- behind that try; or one answer was.
  abbrev pub AnswersOnce : Sender api → Slot → Bytes → EspErr × Sender api → Type 0
  AnswersOnce s slot body r =
      ((r.1.outbox ≡ s.outbox)
        × (r.0 ≢ EspErr.esp_ok)
        × (Blocked api s.world (answer_props api slot)
            ⊎ Blocked api (to_response_topic api s slot body).1.world (answer_props api slot)))
      ⊎ ((topic : Bytes) × (r.1.outbox ≡ answer_on topic body ∷ s.outbox)
          × AnswerTopic s slot topic)

  -- The first try: it left the outbox and failed, with an invalid argument only where the topic is
  -- unusable and otherwise only where it was blocked, or it is done.
  abbrev FirstTry : Sender api → Slot → Bytes → EspErr × Sender api → Type 0
  FirstTry s slot body r =
      (r.1.prefix ≡ s.prefix)
      × (((r.1.outbox ≡ s.outbox)
            × (r.0 ≢ EspErr.esp_ok)
            × (r.0 ≡ EspErr.invalid_arg → Unusable s slot)
            × ((is_invalid_arg r.0 ≡ true) ⊎ Blocked api s.world (answer_props api slot)))
          ⊎ ((is_invalid_arg r.0 ≡ false)
              × (r.1.outbox ≡ answer_on slot.response_topic body ∷ s.outbox)
              × (0 < length slot.response_topic)
              × (has_prefix s.prefix slot.response_topic ≡ true)))

  valid_arg : (e : EspErr) → e ≢ EspErr.invalid_arg → is_invalid_arg e ≡ false
  valid_arg EspErr.invalid_arg h = absurd (h refl)
  valid_arg _ h = refl

  invalid_arg_lem : (e : EspErr) → is_invalid_arg e ≡ true → e ≡ EspErr.invalid_arg
  invalid_arg_lem EspErr.invalid_arg h = refl
  invalid_arg_lem _ h = absurd (ground (arith, h))

  -- What left the outbox was blocked.
  blocked_lem :
      {B : Type 0} (before after : List Message) (m : Message)
      → after ≡ before
      → B ⊎ (after ≡ m ∷ before)
      → B
  blocked_lem before after m same (inl blocked) = blocked
  blocked_lem before after m same (inr sent) =
      absurd (let n = ap length (sym same ∙ sent) in omega (arith, n))

  to_response_topic-FirstTry :
      (s : Sender api) (slot : Slot) (body : Bytes)
      → FirstTry s slot body (to_response_topic api s slot body)
  unfolding to_response_topic
  to_response_topic-FirstTry s slot body =
      if_cases (FirstTry s slot body) (length slot.response_topic == 0)
        (λ unnamed. (
          refl,
          inl (refl, λ e. absurd (ground (arith, e)), λ _. inl (ground (arith, unnamed)), inl refl),
        ))
        (λ named.
          elim (publish_topic-HandsOver api s (answer_on slot.response_topic body)
            (some (answer_props api slot))) [
              | inl (foreign, e) ↦ subst (FirstTry s slot body) (sym e) (
                refl,
                inl (refl, λ k. absurd (ground (arith, k)), λ _. inr (inl foreign), inl refl),
              )
              | inr (own, (same, inl (e, failed))) ↦ (
                same,
                inl (
                  e,
                  failed,
                  λ refused. inr (
                      inr (
                        publish_topic-refused api s (answer_on slot.response_topic body)
                          (answer_props api slot) own refused)),
                  inr (
                      blocked_lem s.outbox _ (answer_on slot.response_topic body) e (
                        publish_topic-sent api s (answer_on slot.response_topic body)
                          (answer_props api slot) own)),
                ),
              )
              | inr (own, (same, inr (e, valid))) ↦
                  (same, inr (valid_arg _ valid, e, ground (arith, named), own))
            ])

  -- With a prefix of less than 93 bytes, whatever the client and the connection do: `respond` hands over one
  -- message with the body. Only where the client is not connected, the mutex is taken or esp-mqtt refuses
  -- the properties of the answer, at the first try or behind it, may it hand over none, and then it fails.
  -- The topic is the one that the platform named,
  -- which is below the prefix of the device then; or it is the device's own topic for answers, and then the
  -- platform named none, or one that is not below the prefix, or esp-mqtt refused the properties of the
  -- answer with ESP_ERR_INVALID_ARG.
  pub respond-AnswersOnce :
      (s : Sender api) (slot : Slot) (body : Bytes)
      → length s.prefix + 3 < 96
      → AnswersOnce s slot body (respond api s slot body)
  unfolding respond
  respond-AnswersOnce s slot body short =
      let first = to_response_topic api s slot body in
      let (same, tried) = to_response_topic-FirstTry s slot body in
      let short' : length first.1.prefix + length (codes "res") < 96 =
        subst (λ p. length p + 3 < 96) (sym same) short in
      let second =
        publish-HandsOver api first.1 (codes "res") body 1 (some (answer_props api slot)) short' in
      if_cases (AnswersOnce s slot body) (is_invalid_arg first.0)
        (λ invalid. elim tried [
          | inl (e, failed, why, _) ↦ elim second.1 [
            | inl (k, refused) ↦ inl (
              k ∙ e,
              refused,
              inr (
                  blocked_lem first.1.outbox _ (answer_on (first.1.prefix ++ codes "res") body) k
                    (publish-sent api first.1 (codes "res") body 1 (answer_props api slot) short')),
            )
            | inr (k, valid) ↦ inr (
              s.prefix ++ codes "res",
              k
                  ∙ ap (λ p. answer_on (p ++ codes "res") body ∷ first.1.outbox) same
                  ∙ ap (λ ms. answer_on (s.prefix ++ codes "res") body ∷ ms) e,
              inr (refl, why (invalid_arg_lem first.0 invalid)),
            )
          ]
          | inr (valid, e, named, own) ↦ absurd (ground (arith, valid, invalid))
        ])
        (λ valid. elim tried [
          | inl (e, failed, why, inl invalid) ↦ absurd (ground (arith, valid, invalid))
          | inl (e, failed, why, inr blocked) ↦ inl (e, failed, inl blocked)
          | inr (v, e, named, own) ↦ inr (slot.response_topic, e, inl (refl, named, own))
        ])
