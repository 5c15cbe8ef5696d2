-- ===== src/Mqtt/Publish/Below.antt =====
-- Where messages go.
use esp_soulcloud_client.Prelude.{
  ℕ, zero, suc, ◌+◌, ◌≤◌, ◌<◌, List, [], ◌∷◌, ◌++◌, ◌≡◌, ◌≢◌, refl, sym, ap, ◌∙◌, ◌⊎◌, inl, inr,
  true, false, not, Option, none, some, Bytes, codes, ℤ, pos, negsuc, length, take, leb, equal_iff,
  if_cases, Bool-cases, length-append, take-length-append, subst, arith,
}
use esp_soulcloud_client.Esp.{EspErr}
use esp_soulcloud_client.Mqtt.Data.{has_prefix}
use esp_soulcloud_client.Mqtt.Publish.{
  Client, Message, PublishProps, Sender, up_topic, down_topic, sent_result, set_props, hand_over,
  publish_topic, publish,
}

-- The array holds the whole topic, for a device id as `sc_enroll_response` holds it.
take_all : (n : ℕ) (xs : Bytes) → length xs ≤ n → take n xs ≡ xs
take_all zero [] h = refl
take_all zero (x ∷ xs) h = absurd (ground (arith, h))
take_all (suc n) [] h = refl
take_all (suc n) (x ∷ xs) h = ap (◌∷◌ x) (take_all n xs (omega (arith, h)))

-- For a device id of at most 15 bytes, neither topic prefix is cut.
pub topics_whole :
    (device_id : Bytes)
    → length device_id ≤ 15
    → (up_topic device_id ≡ codes "d/" ++ (device_id ++ codes "/up/"))
      × (down_topic device_id ≡ codes "d/" ++ (device_id ++ codes "/down/"))
topics_whole device_id short =
    let n = length-append device_id (codes "/up/") in
    let m = length-append device_id (codes "/down/") in
    (
      take_all 31 (codes "d/" ++ (device_id ++ codes "/up/")) (omega (arith, n, short)),
      take_all 31 (codes "d/" ++ (device_id ++ codes "/down/")) (omega (arith, m, short)),
    )

module _ (api : Client) where
  -- Every message that was handed over has a topic with the prefix.
  abbrev pub AllBelow : Bytes → List Message → Type 0
  AllBelow prefix [] = Unit
  AllBelow prefix (m ∷ ms) = (has_prefix prefix m.topic ≡ true) × AllBelow prefix ms

  -- A call leaves the prefix, and hands over nothing and fails, or hands over `m`, of which it does not say that
  -- an argument is invalid.
  abbrev pub HandsOver : Sender api → Message → EspErr × Sender api → Type 0
  HandsOver s m r =
      (r.1.prefix ≡ s.prefix)
      × (((r.1.outbox ≡ s.outbox) × (r.0 ≢ EspErr.esp_ok))
          ⊎ ((r.1.outbox ≡ m ∷ s.outbox) × (r.0 ≢ EspErr.invalid_arg)))

  set_props-keeps :
      (s : Sender api) (props : Option PublishProps)
      → ((set_props api s props).1.prefix ≡ s.prefix)
        × ((set_props api s props).1.outbox ≡ s.outbox)
  set_props-keeps s none = (refl, refl)
  set_props-keeps s (some props) = (refl, refl)

  pub sent_result_lem : (id : ℤ) → sent_result id ≢ EspErr.invalid_arg
  sent_result_lem (pos id) e = absurd (ground (arith, e))
  sent_result_lem (negsuc zero) e = absurd (ground (arith, e))
  sent_result_lem (negsuc (suc zero)) e = absurd (ground (arith, e))
  sent_result_lem (negsuc (suc (suc n))) e = absurd (ground (arith, e))

  hand_over-HandsOver :
      (s : Sender api) (m : Message) (ret : EspErr) → HandsOver s m (hand_over api s m ret)
  unfolding hand_over
  hand_over-HandsOver s m EspErr.esp_ok =
      (refl, inr (refl, sent_result_lem (api.send s.world m.topic m.body m.qos).0))
  hand_over-HandsOver s m _ = (refl, inl (refl, λ e. absurd (ground (arith, e))))

  -- Whatever the client, the mutex and the connection do: a message whose topic lacks the prefix is
  -- refused with ESP_ERR_INVALID_ARG before anything is touched; any other is handed over once and the call
  -- does not return that error, or nothing is handed over and the call fails.
  pub publish_topic-HandsOver :
      (s : Sender api) (m : Message) (props : Option PublishProps)
      → ((has_prefix s.prefix m.topic ≡ false)
          × (publish_topic api s m props ≡ (EspErr.invalid_arg, s)))
        ⊎ ((has_prefix s.prefix m.topic ≡ true) × HandsOver s m (publish_topic api s m props))
  unfolding publish_topic
  publish_topic-HandsOver s m props = elim (Bool-cases (has_prefix s.prefix m.topic)) [
    | inl own ↦ inr (
      own,
      rw own (
          let c = api.connected s.world in
          let l = api.lock c.1 in
          let k = set_props-keeps (record s { world = l.1 }) props in
          let p = set_props api (record s { world = l.1 }) props in
          let h = hand_over-HandsOver p.1 m p.0 in
          if_cases (λ (r : EspErr × Sender api). HandsOver s m r) (not c.0)
            (λ off. (refl, inl (refl, λ e. absurd (ground (arith, e)))))
            (λ on.
              if_cases (λ (r : EspErr × Sender api). HandsOver s m r) (not l.0)
                (λ busy. (refl, inl (refl, λ e. absurd (ground (arith, e)))))
                (λ free. (
                  h.0 ∙ k.0,
                  elim h.1 [
                    | inl (e, failed) ↦ inl (e ∙ k.1, failed)
                    | inr (e, valid) ↦ inr (e ∙ ap (λ ms. m ∷ ms) k.1, valid)
                  ],
                )))),
    )
    | inr foreign ↦ inl (foreign, rw foreign refl)
  ]

  publish_topic-AllBelow :
      (s : Sender api) (m : Message) (props : Option PublishProps)
      → AllBelow s.prefix s.outbox
      → AllBelow s.prefix (publish_topic api s m props).1.outbox
        × ((publish_topic api s m props).1.prefix ≡ s.prefix)
  publish_topic-AllBelow s m props below = elim (publish_topic-HandsOver s m props) [
    | inl (foreign, e) ↦ rw e (below, refl)
    | inr (own, (same, inl (e, failed))) ↦ (rw e below, same)
    | inr (own, (same, inr (e, valid))) ↦ (rw e (own, below), same)
  ]

  pub has_prefix-append : (xs ys : Bytes) → has_prefix xs (xs ++ ys) ≡ true
  has_prefix-append xs ys =
      (equal_iff (take (length xs) (xs ++ ys)) xs).1 (take-length-append xs ys)

  -- Where the whole topic has less than 96 bytes, `publish` hands over the message below the prefix and does not
  -- return ESP_ERR_INVALID_ARG, or hands over nothing and fails.
  pub publish-HandsOver :
      (s : Sender api) (sub_topic body : Bytes) (qos : ℕ) (props : Option PublishProps)
      → length s.prefix + length sub_topic < 96
      → HandsOver s
          (record { topic = s.prefix ++ sub_topic; body = body; qos = qos })
          (publish api s sub_topic body qos props)
  unfolding publish
  publish-HandsOver s sub_topic body qos props short =
      let n = length-append s.prefix sub_topic in
      let fits : leb 96 (length (s.prefix ++ sub_topic)) ≡ false = ground (arith, n, short) in
      let m : Message = record { topic = s.prefix ++ sub_topic; body = body; qos = qos } in
      rw fits (elim (publish_topic-HandsOver s m props) [
        | inl (foreign, e) ↦ absurd (ground (arith, foreign, has_prefix-append s.prefix sub_topic))
        | inr (own, h) ↦ h
      ])

  publish-AllBelow :
      (s : Sender api) (sub_topic body : Bytes) (qos : ℕ) (props : Option PublishProps)
      → AllBelow s.prefix s.outbox
      → AllBelow s.prefix (publish api s sub_topic body qos props).1.outbox
        × ((publish api s sub_topic body qos props).1.prefix ≡ s.prefix)
  unfolding publish
  publish-AllBelow s sub_topic body qos props below =
      if_cases (λ (r : EspErr × Sender api). AllBelow s.prefix r.1.outbox × (r.1.prefix ≡ s.prefix))
        (leb 96 (length (s.prefix ++ sub_topic))) (λ long. (below, refl))
        (λ fits.
          publish_topic-AllBelow s
            (record { topic = s.prefix ++ sub_topic; body = body; qos = qos }) props below)

  -- The two ways to publish.
  pub data Publication : Type 0 where
    to_topic : Message → Option PublishProps → Publication
    below : Bytes → Bytes → ℕ → Option PublishProps → Publication

  unfoldable pub publish_all : Sender api → List Publication → Sender api
  publish_all s [] = s
  publish_all s (to_topic m props ∷ ps) = publish_all (publish_topic api s m props).1 ps
  publish_all s (below sub_topic body qos props ∷ ps) =
      publish_all (publish api s sub_topic body qos props).1 ps

  -- Where no message that was handed over lacks the prefix of the device in its topic: whatever is
  -- published, in either way, there is none afterwards.
  pub publish_all-AllBelow :
      (ps : List Publication) (s : Sender api) (prefix : Bytes)
      → s.prefix ≡ prefix
      → AllBelow prefix s.outbox
      → AllBelow prefix (publish_all s ps).outbox
  unfolding publish_all
  publish_all-AllBelow [] s prefix e h = h
  publish_all-AllBelow (to_topic m props ∷ ps) s prefix e h =
      let k = publish_topic-AllBelow s m props (subst (λ x. AllBelow x s.outbox) (sym e) h) in
      publish_all-AllBelow ps (publish_topic api s m props).1 prefix (k.1 ∙ e)
        (subst (λ x. AllBelow x (publish_topic api s m props).1.outbox) e k.0)
  publish_all-AllBelow (below sub_topic body qos props ∷ ps) s prefix e h =
      let k =
        publish-AllBelow s sub_topic body qos props (subst (λ x. AllBelow x s.outbox) (sym e) h) in
      publish_all-AllBelow ps (publish api s sub_topic body qos props).1 prefix (k.1 ∙ e)
        (subst (λ x. AllBelow x (publish api s sub_topic body qos props).1.outbox) e k.0)
