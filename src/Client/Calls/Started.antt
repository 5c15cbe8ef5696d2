-- ===== src/Client/Calls/Started.antt =====
-- The update that an answer of the platform starts, and the time that it sets.
use esp_soulcloud_client.Prelude.{
  ℕ, ◌+◌, ◌*◌, ◌/◌, ◌%◌, ◌<◌, ◌≡◌, refl, ap, ◌∙◌, ◌⊎◌, inl, inr, List, Bool, not, Option, codes,
  length, c_string-c_string, pos, if_cases, arith,
}
use esp_soulcloud_client.Esp.{EspErr}
use esp_soulcloud_client.Codec.Decode.{no_params, decode_ota_params}
use esp_soulcloud_client.Codec.Decode.Update.{IsUpdate, decode_ota_params-IsUpdate}
use esp_soulcloud_client.Json.Reader.{Reader, find, is_object}
use esp_soulcloud_client.Json.Token.{Tokeniser}
use esp_soulcloud_client.Mqtt.Publish.{Client}
use esp_soulcloud_client.Ota.{Params}
use esp_soulcloud_client.Ota.Control.{Control, start}
use esp_soulcloud_client.Rpc.Calls.{Caller, Fragment, Result, call}
use esp_soulcloud_client.Client.Calls.{
  no_result, strings_of, start_decoded, use_update, check_for_update, time_of,
}

-- An update is left as it is, or it has parameters that the document holds.
abbrev pub Started : Control → Reader → Control → Type 0
Started c doc c' = (c' ≡ c) ⊎ ((object : Option ℕ) × IsUpdate doc object c'.params)

start-Started :
    (created : Bool) (params : Params) (c : Control) (doc : Reader) (object : Option ℕ)
    → IsUpdate doc object params
    → Started c doc (start created (strings_of params) c).1
unfolding start
start-Started created params c doc object h =
    let p = strings_of params in
    let good : IsUpdate doc object p = record {
      digest = ap length (c_string-c_string params.sha256) ∙ h.digest;
      some_size = h.some_size;
      size_fits = h.size_fits;
      size_read = h.size_read;
    } in
    if_cases (λ (r : EspErr × Control). Started c doc r.1) c.running (λ _. inl refl)
      (λ _.
        if_cases (λ (r : EspErr × Control). Started c doc r.1) created (λ _. inr (object, good))
          (λ _. inr (object, good)))

start_decoded-Started :
    (c : Control) (created : Bool) (doc : Reader) (object : Option ℕ) (r : EspErr × Params)
    → ((r.0 ≡ EspErr.esp_ok) → IsUpdate doc object r.1)
    → Started c doc (start_decoded c created r)
start_decoded-Started c created doc object (EspErr.esp_ok, params) h =
    start-Started created params c doc object (h refl)
start_decoded-Started c created doc object (_, params) h = inl refl

decoded-IsUpdate :
    (doc : Reader) (object : Option ℕ)
    → (decode_ota_params doc object no_params).0 ≡ EspErr.esp_ok
    → IsUpdate doc object (decode_ota_params doc object no_params).1
decoded-IsUpdate doc object e = elim (decode_ota_params-IsUpdate doc object no_params) [
  | inl (ok, good) ↦ good
  | inr (bad, same_size, same_version) ↦ absurd (ground (arith, e, bad))
]

use_update-Started :
    (c : Control) (created : Bool) (r : EspErr × Result)
    → Started c r.1.doc (use_update c created r)
unfolding use_update
use_update-Started c created (EspErr.esp_ok, r) =
    let update = find r.doc r.token (codes "update") in
    if_cases (Started c r.doc) (not (is_object r.doc update)) (λ _. inl refl)
      (λ _.
        start_decoded-Started c created r.doc update (decode_ota_params r.doc update no_params)
          (decoded-IsUpdate r.doc update))
use_update-Started c created (_, r) = inl refl

module _ (api : Client) (jsmn : Tokeniser) where
  -- Whatever the platform answers, and whatever else arrives: `check_for_update` leaves the update as it is, or
  -- with a digest of 64 characters and the size that the answer holds, which is positive and fits 32 bits.
  pub check_for_update-Started :
      (s : Caller api) (c : Control) (created : Bool) (fs : List Fragment)
      → Started c
          (call api jsmn 24 s (codes "ota.check") (codes "{}") no_result fs).0.1.doc
          (check_for_update api jsmn s c created fs).0
  unfolding check_for_update
  check_for_update-Started s c created fs =
      use_update-Started c created
        (call api jsmn 24 s (codes "ota.check") (codes "{}") no_result fs).0

-- A time of milliseconds since 1970 is set exactly, with less than a second in `tv_usec`.
pub time_of-pos :
    (ms : ℕ)
    → (sec : ℕ) × (usec : ℕ) × (time_of (pos ms) ≡ record { sec = pos sec; usec = pos usec })
      × (sec * 1000000 + usec ≡ ms * 1000)
      × (usec < 1000000)
unfolding time_of
time_of-pos ms = (ms / 1000, ms % 1000 * 1000, refl, omega arith, omega arith)
