-- ===== src/Credentials/Body.antt =====
-- The loop that reads the answer to an enrollment.
use esp_soulcloud_client.Prelude.{
  ℕ, zero, suc, ◌-◌, ◌≤◌, ◌≡◌, refl, length, length-append, ◌==◌, false, inl, inr, Bool-cases,
  arith,
}
use esp_soulcloud_client.Credentials.{Platform, read_body}

module _ (api : Platform) where
  open api use {World}

  less_room : (room n fuel : ℕ) → suc room ≤ suc fuel → (n == 0) ≡ false → suc room - n ≤ fuel
  less_room room n fuel h k = ground arith

  -- For any behaviour of the connection: fuel of the room or more gives what fuel of the room gives, and
  -- the body fits the room.
  pub read_body_enough :
      (fuel room : ℕ) (w : World)
      → room ≤ fuel
      → (read_body api fuel room w ≡ read_body api room room w)
        × (length (read_body api fuel room w).0 ≤ room)
  unfolding read_body
  read_body_enough fuel room w h =
      (fuel_lem fuel room room w h (omega arith), body_fits fuel room w)
    where
      fuel_lem :
          (f g room : ℕ) (w : World)
          → room ≤ f
          → room ≤ g
          → read_body api f room w ≡ read_body api g room w
      fuel_lem zero zero zero w h k = refl
      fuel_lem zero (suc g) zero w h k = refl
      fuel_lem (suc f) zero zero w h k = refl
      fuel_lem (suc f) (suc g) zero w h k = refl
      fuel_lem zero g (suc room) w h k = absurd (omega arith)
      fuel_lem (suc f) zero (suc room) w h k = absurd (omega arith)
      fuel_lem (suc f) (suc g) (suc room) w h k =
          let r = api.read w (suc room) in
          elim (Bool-cases (length r.0 == 0)) [
            | inl done ↦ rw done refl
            | inr more ↦
                rw
                  (
                    more,
                    fuel_lem f g (suc room - length r.0) r.1 (less_room room (length r.0) f h more)
                        (less_room room (length r.0) g k more),
                  )
                  refl
          ]

      body_fits : (f room : ℕ) (w : World) → length (read_body api f room w).0 ≤ room
      body_fits zero room w = omega arith
      body_fits (suc f) zero w = omega arith
      body_fits (suc f) (suc room) w =
          let r = api.read w (suc room) in
          let fits = api.read_fits w (suc room) in
          let rest = body_fits f (suc room - length r.0) r.1 in
          let n = length-append r.0 (read_body api f (suc room - length r.0) r.1).0 in
          elim (Bool-cases (length r.0 == 0)) [
            | inl done ↦ rw done fits
            | inr more ↦ rw more (omega (arith, fits, rest, n))
          ]
