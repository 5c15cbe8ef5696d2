-- ===== src/Ota/Boot.antt =====
-- What `run` may boot.
use esp_soulcloud_client.Prelude.{
  ℕ, ◌≡◌, refl, sym, ap, ◌∙◌, ◌⊎◌, inl, inr, false, Option, none, some, codes, [], equal, equal_iff,
  ltb, if_cases, Option-cases,
}
use esp_soulcloud_client.Esp.{EspErr}
use esp_soulcloud_client.Json.Page.{hex_text}
use esp_soulcloud_client.Ota.{
  Params, Platform, Task, report, Ending, stop, fail, switched, image_ended, begun, verify,
  finish_download, run,
}
use esp_soulcloud_client.Ota.Download.{Taken, Done, download-ends}

module _ (api : Platform) (http_buffer : ℕ) (params : Params) where
  -- The boot partition stays, or holds as many bytes as the update has, with the SHA-256 of the update.
  abbrev pub IsVerified : Task api → Type 0
  IsVerified t = Taken api params.size t × (hex_text (api.sha256_of t.written) ≡ params.sha256)

  abbrev pub Safe : Ending api http_buffer params → Type 0
  Safe e = (e.booted ≡ false) ⊎ IsVerified e.task

  switched-Safe :
      (t : Task api) (e : EspErr) → IsVerified t → Safe (switched api http_buffer params t e)
  unfolding switched
  switched-Safe t EspErr.esp_ok v = inr (record { same = v.0.same; count_is = v.0.count_is }, v.1)
  switched-Safe t _ v = inl refl

  image_ended-Safe :
      (t : Task api) (e : EspErr) → IsVerified t → Safe (image_ended api http_buffer params t e)
  unfolding image_ended
  image_ended-Safe t EspErr.esp_ok v =
      let b = api.set_boot t.world in
      switched-Safe (record t { world = b.1 }) b.0
        (record { same = v.0.same; count_is = v.0.count_is }, v.1)
  image_ended-Safe t _ v = inl refl

  verify-Safe : (t : Task api) → Taken api params.size t → Safe (verify api http_buffer params t)
  unfolding verify
  verify-Safe t h =
      let done = api.end t.world in
      if_cases Safe (equal (hex_text (api.sha256_of t.hashed)) params.sha256)
        (λ same.
          image_ended-Safe
            (record (report api t (codes "verifying") (some 100) none) { world = done.1 }) done.0
            (
              record { same = h.same; count_is = h.count_is },
              ap (λ x. hex_text (api.sha256_of x)) (sym h.same)
                  ∙ (equal_iff (hex_text (api.sha256_of t.hashed)) params.sha256).0 same,
            ))
        (λ apart. inl refl)

  finish_download-Safe :
      (t : Task api) (e : EspErr)
      → Done api http_buffer params t e
      → Safe (finish_download api http_buffer params t e)
  unfolding finish_download
  finish_download-Safe t EspErr.esp_ok d = verify-Safe t d
  finish_download-Safe t _ d = inl refl

  abbrev pub EndsSafe : Option (Ending api http_buffer params) → Type 0
  EndsSafe o = (e : Ending api http_buffer params) × (o ≡ some e) × Safe e

  begun-EndsSafe :
      (t : Task api) (e : EspErr)
      → t.written ≡ []
      → t.hashed ≡ []
      → EndsSafe (begun api http_buffer params t e)
  unfolding begun
  begun-EndsSafe t EspErr.esp_ok w h =
      let (t', r, e, d) = download-ends api http_buffer params t w h in
      rw (e, begun) (finish_download api http_buffer params t' r, refl, finish_download-Safe t' r d)
  begun-EndsSafe t e w h = (
    stop api http_buffer params (fail api http_buffer params t (api.err_name e)) e,
    refl,
    inl refl,
  )

  -- An update comes to an end, whatever the server, the connection, the partition and the other tasks
  -- do; the boot partition is left alone, or the bytes in the partition are as many as the update's
  -- size, are the bytes hashed, and have the SHA-256 of the update.
  pub run-EndsSafe :
      (t : Task api) → t.written ≡ [] → t.hashed ≡ [] → EndsSafe (run api http_buffer params t)
  unfolding run
  run-EndsSafe t w h = elim (Option-cases (api.partition t.world)) [
    | inl e ↦
        rw (e, run)
          (
            stop api http_buffer params (fail api http_buffer params t (codes "no OTA partition"))
                EspErr.invalid_size,
            refl,
            inl refl,
          )
    | inr (room, e) ↦
        rw (e, run)
          (if_cases EndsSafe (ltb room params.size)
            (λ large. (
              stop api http_buffer params
                  (fail api http_buffer params t (codes "image larger than the OTA partition"))
                  EspErr.invalid_size,
              refl,
              inl refl,
            ))
            (λ fits.
              let b = api.begin t.world params.size in
              begun-EndsSafe
                (record (report api t (codes "downloading") (some 0) none) { world = b.1 }) b.0 w
                h))
  ]
