-- ===== src/Credentials/Kept.antt =====
-- What `save` leaves for `load`.
use esp_soulcloud_client.Prelude.{
  ◌<◌, ◌≡◌, ◌≢◌, refl, sym, ap, subst, ◌∙◌, Bytes, length, c_string, c_string-c_string, arith,
}
use esp_soulcloud_client.Esp.{EspErr}
use esp_soulcloud_client.Codec.Decode.{EnrollResponse, no_response}
use esp_soulcloud_client.Credentials.{
  Platform, Credentials, and_then, with_device_id, with_password, with_mqtt_url, key_device_id,
  key_password, key_mqtt_url, read_stored, keep_stored, load_opened, load, write_strings, closed,
  save,
}

-- The same three strings.
pub record SameStrings (a b : EnrollResponse) : Type 0 where
  pub device_id : c_string a.device_id ≡ c_string b.device_id
  pub password : c_string a.password ≡ c_string b.password
  pub mqtt_url : c_string a.mqtt_url ≡ c_string b.mqtt_url

-- Each string and its NUL fit the array of its member.
pub record FitsArrays (r : EnrollResponse) : Type 0 where
  pub device_id : length (c_string r.device_id) < 16
  pub password : length (c_string r.password) < 48
  pub mqtt_url : length (c_string r.mqtt_url) < 160

module _ {A : Type 0} where
  -- Both halves of a chain that succeeded, and a chain whose first half does.
  pub and_then-split :
      (x : EspErr × A) (next : A → EspErr × A)
      → (and_then x next).0 ≡ EspErr.esp_ok
      → (x.0 ≡ EspErr.esp_ok) × ((next x.1).0 ≡ EspErr.esp_ok) × (and_then x next ≡ next x.1)
  and_then-split (EspErr.esp_ok, a) next h = (refl, h, refl)
  and_then-split (_, a) next h = absurd (ground (arith, h))

  and_then_ok :
      (x : EspErr × A) (next : A → EspErr × A) → x.0 ≡ EspErr.esp_ok → and_then x next ≡ next x.1
  and_then_ok (EspErr.esp_ok, a) next h = refl
  and_then_ok (_, a) next h = absurd (ground (arith, h))

module _ (api : Platform) where
  open api use {World}

  -- A string in the store.
  record Holds (w : World) (key value : Bytes) : Type 0 where
    read :
        (buf : Bytes)
        → length value < length buf
        → ((api.get_str w key buf).0 ≡ EspErr.esp_ok) × (c_string (api.get_str w key buf).1 ≡ value)

  set_str-Holds :
      (w : World) (key s : Bytes)
      → (api.set_str w key (c_string s)).0 ≡ EspErr.esp_ok
      → Holds (api.set_str w key (c_string s)).1 key (c_string s)
  set_str-Holds w key s h = record {
    read = λ buf fits. api.get-set w key (c_string s) buf h (c_string-c_string s) fits;
  }

  Holds-other :
      (w : World) (key other s value : Bytes)
      → (api.set_str w other s).0 ≡ EspErr.esp_ok
      → key ≢ other
      → Holds w key value
      → Holds (api.set_str w other s).1 key value
  Holds-other w key other s value h ne k = record {
    read = λ buf fits. rw (api.get-set_other w other key s buf h ne) (k.read buf fits);
  }

  Holds-later :
      (w : World) (key value : Bytes)
      → Holds w key value
      → Holds (api.open_read (api.close (api.commit w).1)).1 key value
  Holds-later w key value k = record {
    read = λ buf fits.
        rw
          (
            api.get-open_read (api.close (api.commit w).1) key buf,
            api.get-close (api.commit w).1 key buf,
            api.get-commit w key buf,
          )
          (k.read buf fits);
  }

  read_stored-SameStrings :
      (w : World) (resp : EnrollResponse)
      → FitsArrays resp
      → Holds w key_device_id (c_string resp.device_id)
      → Holds w key_password (c_string resp.password)
      → Holds w key_mqtt_url (c_string resp.mqtt_url)
      → ((read_stored api w).0 ≡ EspErr.esp_ok) × SameStrings (read_stored api w).1 resp
  unfolding read_stored
  read_stored-SameStrings w resp fits h1 h2 h3 =
      let (ok1, s1) = h1.read no_response.device_id fits.device_id in
      let (ok2, s2) = h2.read no_response.password fits.password in
      let (ok3, s3) = h3.read no_response.mqtt_url fits.mqtt_url in
      let p1 = with_device_id no_response (api.get_str w key_device_id no_response.device_id) in
      let step2 : EnrollResponse → EspErr × EnrollResponse =
        λ r. with_password r (api.get_str w key_password r.password) in
      let step3 : EnrollResponse → EspErr × EnrollResponse =
        λ r. with_mqtt_url r (api.get_str w key_mqtt_url r.mqtt_url) in
      let e =
        ap (λ x. and_then x step3) (and_then_ok p1 step2 ok1)
        ∙ and_then_ok (step2 p1.1) step3 ok2 in
      subst (λ x. (x.0 ≡ EspErr.esp_ok) × SameStrings x.1 resp) (sym e)
        (ok3, record { device_id = s1; password = s2; mqtt_url = s3 })

  load_stored :
      (c : Credentials api) (resp : EnrollResponse)
      → (api.open_read c.world).0 ≡ EspErr.esp_ok
      → ((read_stored api (api.open_read c.world).1).0 ≡ EspErr.esp_ok)
        × SameStrings (read_stored api (api.open_read c.world).1).1 resp
      → ((load api c).0 ≡ EspErr.esp_ok) × SameStrings (load api c).1.identity resp
  unfolding load
  load_stored c resp opened (ok, same) =
      let w = (api.open_read c.world).1 in
      let kept = record c { world = api.close w } in
      let e =
        load_opened_ok c (api.open_read c.world) opened
        ∙ keep_stored_ok kept (read_stored api w) ok in
      subst (λ x. (x.0 ≡ EspErr.esp_ok) × SameStrings x.1.identity resp) (sym e) (refl, same)
    where
      load_opened_ok :
          (c : Credentials api) (r : EspErr × World)
          → r.0 ≡ EspErr.esp_ok
          → load_opened api c r
            ≡ keep_stored api (record c { world = api.close r.1 }) (read_stored api r.1)
      load_opened_ok c (EspErr.esp_ok, w) h = refl
      load_opened_ok c (_, w) h = absurd (ground (arith, h))

      keep_stored_ok :
          (c : Credentials api) (r : EspErr × EnrollResponse)
          → r.0 ≡ EspErr.esp_ok
          → keep_stored api c r ≡ (EspErr.esp_ok, record c { identity = r.1 })
      keep_stored_ok c (EspErr.esp_ok, stored) h = refl
      keep_stored_ok c (_, stored) h = absurd (ground (arith, h))

  -- The store behind the writes of `save`, where all of them and the commit succeed.
  written_strings :
      (w : World) (resp : EnrollResponse)
      → FitsArrays resp
      → (write_strings api w resp).0 ≡ EspErr.esp_ok
      → (let later = (api.open_read (api.close (write_strings api w resp).1)).1 in
          ((read_stored api later).0 ≡ EspErr.esp_ok) × SameStrings (read_stored api later).1 resp)
  unfolding write_strings
  written_strings w resp fits h =
      let x1 = api.set_str w key_device_id (c_string resp.device_id) in
      let step2 : World → EspErr × World =
        λ v. api.set_str v key_password (c_string resp.password) in
      let step3 : World → EspErr × World =
        λ v. api.set_str v key_mqtt_url (c_string resp.mqtt_url) in
      let (ok123, done, e4) = and_then-split (and_then (and_then x1 step2) step3) api.commit h in
      let (ok12, ok3', e3) = and_then-split (and_then x1 step2) step3 ok123 in
      let (ok1, ok2, e2) = and_then-split x1 step2 ok12 in
      let ok3 : (step3 (step2 x1.1).1).0 ≡ EspErr.esp_ok =
        ap (λ x. (step3 x.1).0) (sym e2) ∙ ok3' in
      let e = e4 ∙ ap (λ x. api.commit x.1) (e3 ∙ ap (λ x. step3 x.1) e2) in
      let v = (step3 (step2 x1.1).1).1 in
      let h1 =
        Holds-other (step2 x1.1).1 key_device_id key_mqtt_url (c_string resp.mqtt_url)
          (c_string resp.device_id) ok3 (λ k. absurd (ground (arith, k)))
          (Holds-other x1.1 key_device_id key_password (c_string resp.password)
            (c_string resp.device_id) ok2 (λ k. absurd (ground (arith, k)))
            (set_str-Holds w key_device_id resp.device_id ok1)) in
      let h2 =
        Holds-other (step2 x1.1).1 key_password key_mqtt_url (c_string resp.mqtt_url)
          (c_string resp.password) ok3 (λ k. absurd (ground (arith, k)))
          (set_str-Holds x1.1 key_password resp.password ok2) in
      let h3 = set_str-Holds (step2 x1.1).1 key_mqtt_url resp.mqtt_url ok3 in
      let later = (api.open_read (api.close (api.commit v).1)).1 in
      let stored =
        read_stored-SameStrings later resp fits
          (Holds-later v key_device_id (c_string resp.device_id) h1)
          (Holds-later v key_password (c_string resp.password) h2)
          (Holds-later v key_mqtt_url (c_string resp.mqtt_url) h3) in
      subst
        (λ x.
          (let later = (api.open_read (api.close x.1)).1 in
            ((read_stored api later).0 ≡ EspErr.esp_ok)
            × SameStrings (read_stored api later).1 resp))
        (sym e) stored

  -- Where `save` succeeds for strings that fit their arrays, and NVS can be opened behind it: `load`
  -- succeeds and has the same three strings.
  pub save-load :
      (w : World) (resp : EnrollResponse) (c : Credentials api)
      → FitsArrays resp
      → (save api w resp).0 ≡ EspErr.esp_ok
      → c.world ≡ (save api w resp).1
      → (api.open_read c.world).0 ≡ EspErr.esp_ok
      → ((load api c).0 ≡ EspErr.esp_ok) × SameStrings (load api c).1.identity resp
  unfolding save
  save-load w resp c fits saved at opened =
      let (ok, ok', e) =
        and_then-split (api.open_write w) (λ v. closed api (write_strings api v resp)) saved in
      let v = (api.open_write w).1 in
      load_stored c resp opened (
        subst
          (λ x.
            ((read_stored api (api.open_read x).1).0 ≡ EspErr.esp_ok)
            × SameStrings (read_stored api (api.open_read x).1).1 resp)
          (sym (at ∙ ap (λ x. x.1) e)) (written_strings v resp fits ok'))
