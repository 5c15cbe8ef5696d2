-- ===== src/Client/Reports/Sent.antt =====
-- What of a report goes out.
use esp_soulcloud_client.Prelude.{
  ℕ, ◌+◌, ◌<◌, ◌≡◌, ◌≢◌, refl, ◌⊎◌, inl, inr, ◌∷◌, ◌++◌, Option, none, some, Bytes, codes, length,
  if_cases, arith,
}
use esp_soulcloud_client.Esp.{EspErr}
use esp_soulcloud_client.Client.Reports.{json_props, report_qos, publish_encoded, report}
use esp_soulcloud_client.Codec.{StatusMsg, finish, encode_status}
use esp_soulcloud_client.Json.Writer.{Writer, is_ok, text}
use esp_soulcloud_client.Mqtt.Publish.{Client, Sender, Message}
use esp_soulcloud_client.Mqtt.Publish.Below.{publish-HandsOver}

-- An encoder that fails gives no body, and one that succeeds gives one.
abbrev Whole : EspErr × Option Bytes → Type 0
Whole r =
    ((r.0 ≢ EspErr.esp_ok) × (r.1 ≡ none)) ⊎ ((body : Bytes) × (r ≡ (EspErr.esp_ok, some body)))

finish-Whole : (w : Writer) → Whole (finish w)
unfolding finish
finish-Whole w =
    if_cases Whole (is_ok w) (λ _. inr (text w, refl))
      (λ _. inl ((λ e. absurd (ground (arith, e))), refl))

encode_status-Whole :
    (msg : StatusMsg) (extra : Option (Writer → Writer)) (buf : Bytes)
    → Whole (encode_status msg extra buf 640)
unfolding encode_status
encode_status-Whole msg extra buf = finish-Whole _

module _ (api : Client) where
  abbrev pub status_message : Bytes → ℕ → Bytes → Message
  status_message prefix qos body = record {
    topic = prefix ++ codes "status";
    body = body;
    qos = qos;
  }

  -- Nothing is handed over and the call fails, or the whole status is.
  abbrev pub Reported :
      Sender api → StatusMsg → Option (Writer → Writer) → Bytes → EspErr × Sender api → Type 0
  Reported s msg extra buf r =
      ((r.1.outbox ≡ s.outbox) × (r.0 ≢ EspErr.esp_ok))
      ⊎ ((body : Bytes) × (encode_status msg extra buf 640 ≡ (EspErr.esp_ok, some body))
          × (r.1.outbox ≡ status_message s.prefix (report_qos msg.birth) body ∷ s.outbox))

  -- With a prefix of less than 90 bytes: a report hands over the status that the encoder wrote, with QoS 1 for
  -- a birth and else 0, or it hands over nothing and fails.
  pub report-Reported :
      (s : Sender api) (msg : StatusMsg) (extra : Option (Writer → Writer)) (buf : Bytes)
      → length s.prefix + 6 < 96
      → Reported s msg extra buf (report api s msg extra buf)
  unfolding report
  report-Reported s msg extra buf short =
      go (encode_status msg extra buf 640) refl (encode_status-Whole msg extra buf)
    where
      go :
          (r : EspErr × Option Bytes)
          → encode_status msg extra buf 640 ≡ r
          → Whole r
          → Reported s msg extra buf (publish_encoded api s (report_qos msg.birth) r)
      go (EspErr.esp_ok, some body) e h =
          elim (publish-HandsOver api s (codes "status") body (report_qos msg.birth)
            (some json_props) short).1 [
              | inl failed ↦ inl failed
              | inr (sent, valid) ↦ inr (body, e, sent)
            ]
      go (EspErr.esp_ok, none) e (inl (failed, empty)) = inl (refl, failed)
      go (EspErr.esp_ok, none) e (inr (body, k)) = absurd (ground (arith, k))
      go (_, body) e h = inl (refl, λ k. absurd (ground (arith, k)))
