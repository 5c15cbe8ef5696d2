-- ===== src/Credentials/Enrolled.antt =====
-- What an enrollment leaves.
use esp_soulcloud_client.Prelude.{
  ℕ, ◌<◌, [], ◌∷◌, ◌≡◌, ◌≢◌, ◌⊎◌, inl, inr, refl, sym, ap, subst, Bool, true, false, not, Option,
  none, some, Bytes, codes, length, c_string, replicate, ◌==◌, if◌then◌else◌, if_cases,
  Option-cases, arith,
}
use esp_soulcloud_client.Esp.{EspErr}
use esp_soulcloud_client.Codec.{EnrollRequest, finish, encode_enroll_request}
use esp_soulcloud_client.Codec.Decode.{
  EnrollResponse, no_response, and_str, read_response, decode_enroll_response,
}
use esp_soulcloud_client.Codec.Decode.Refill.{get_str_fits}
use esp_soulcloud_client.Json.Reader.{Reader, find, get_str, parse}
use esp_soulcloud_client.Json.Token.{Tokeniser}
use esp_soulcloud_client.Json.Writer.{Writer, is_ok, text}
use esp_soulcloud_client.Credentials.{
  Platform, Credentials, Device, Exchange, save, load, adopt, use_response, use_answer,
  exchange_opened, post, enroll, enroll_url, request, response_max, status_error,
}
use esp_soulcloud_client.Credentials.Kept.{SameStrings, FitsArrays, save-load}

and_str_split :
    (b : Bool) (read : Bool × Bytes) (out : Bytes)
    → (and_str b read out).0 ≡ true
    → (b ≡ true) × (read.0 ≡ true) × (and_str b read out ≡ read)
and_str_split true read out h = (refl, h, refl)
and_str_split false read out h = absurd (ground (arith, h))

ok_of :
    (b : Bool) → (if b then EspErr.esp_ok else EspErr.invalid_response) ≡ EspErr.esp_ok → b ≡ true
ok_of true h = refl
ok_of false h = absurd (ground (arith, h))

read_response-FitsArrays :
    (doc : Reader)
    → (read_response doc no_response).0 ≡ EspErr.esp_ok
    → FitsArrays (read_response doc no_response).1
unfolding read_response
read_response-FitsArrays doc h =
    let mqtt = find doc (some 0) (codes "mqtt") in
    let id = get_str doc (some 0) (codes "deviceId") 16 (replicate 16 0) in
    let password = get_str doc mqtt (codes "password") 48 (replicate 48 0) in
    let url = get_str doc mqtt (codes "url") 160 (replicate 160 0) in
    let password' = and_str id.0 password (replicate 48 0) in
    let (got2', got3, e3) = and_str_split password'.0 url (replicate 160 0) (ok_of _ h) in
    let (got1, got2, e2) = and_str_split id.0 password (replicate 48 0) got2' in
    record {
      device_id =
          get_str_fits doc (some 0) (codes "deviceId") 16 (replicate 16 0) refl (omega arith) got1;
      password =
          subst (λ x. length (c_string x.1) < 48) (sym e2)
            (get_str_fits doc mqtt (codes "password") 48 (replicate 48 0) refl (omega arith) got2);
      mqtt_url =
          subst (λ x. length (c_string x.1) < 160) (sym e3)
            (get_str_fits doc mqtt (codes "url") 160 (replicate 160 0) refl (omega arith) got3);
    }

decoded_fits :
    (jsmn : Tokeniser) (body : Bytes)
    → (decode_enroll_response jsmn body no_response).0 ≡ EspErr.esp_ok
    → FitsArrays (decode_enroll_response jsmn body no_response).1
unfolding decode_enroll_response
decoded_fits jsmn body h = go (parse jsmn 48 body) h
  where
    go :
        (parsed : EspErr × Reader)
        → (let (ret, doc) = parsed in
            (elim ret as (λ _. EspErr × EnrollResponse) [
              | EspErr.esp_ok ↦ read_response doc no_response
              | failed ↦ (failed, no_response)
            ]).0)
          ≡ EspErr.esp_ok
        → FitsArrays (
            let (ret, doc) = parsed in
            (elim ret as (λ _. EspErr × EnrollResponse) [
              | EspErr.esp_ok ↦ read_response doc no_response
              | failed ↦ (failed, no_response)
            ]).1)
    go (EspErr.esp_ok, doc) h = read_response-FitsArrays doc h
    go (_, doc) h = absurd (ground (arith, h))

-- An encoder that succeeds gives a body.
abbrev Encoded : EspErr × Option Bytes → Type 0
Encoded r = (r.0 ≢ EspErr.esp_ok) ⊎ ((body : Bytes) × (r ≡ (EspErr.esp_ok, some body)))

finish-Encoded : (w : Writer) → Encoded (finish w)
unfolding finish
finish-Encoded w =
    if_cases Encoded (is_ok w) (λ _. inr (text w, refl))
      (λ _. inl (λ e. absurd (ground (arith, e))))

request-Encoded :
    (req : EnrollRequest) (buf : Bytes) (size : ℕ) → Encoded (encode_enroll_request req buf size)
unfolding encode_enroll_request
request-Encoded req buf size = finish-Encoded _

module _ (api : Platform) where
  open api use {World}

  -- NVS cannot be opened, or a load has the strings of the identity.
  abbrev pub Loads : Credentials api → Type 0
  Loads c =
      ((api.open_read c.world).0 ≢ EspErr.esp_ok)
      ⊎ (((load api c).0 ≡ EspErr.esp_ok) × SameStrings (load api c).1.identity c.identity)

  -- What an enrollment returns and leaves, from the credentials `c`.
  abbrev pub Enrolled : Credentials api → EspErr × Credentials api → Type 0
  Enrolled c r =
      ((r.0 ≡ EspErr.esp_ok) × FitsArrays r.1.identity × Loads r.1)
      ⊎ ((r.0 ≢ EspErr.esp_ok) × (r.1.identity ≡ c.identity))

  opens : (ret : EspErr) → (ret ≡ EspErr.esp_ok) ⊎ (ret ≢ EspErr.esp_ok)
  opens EspErr.esp_ok = inl refl
  opens _ = inr (λ e. absurd (ground (arith, e)))

  adopt-Enrolled :
      (c : Credentials api) (w : World) (resp : EnrollResponse)
      → FitsArrays resp
      → Enrolled c (adopt api c resp (save api w resp))
  adopt-Enrolled c w resp fits = go (save api w resp) refl
    where
      go : (s : EspErr × World) → save api w resp ≡ s → Enrolled c (adopt api c resp s)
      go (EspErr.esp_ok, v) e =
          let c' : Credentials api = record { world = v; identity = resp } in
          inl (
            refl,
            fits,
            elim (opens (api.open_read v).0) [
              | inl opened ↦
                  inr
                    (save-load api w resp c' fits (ap (λ x. x.0) e) (ap (λ x. x.1) (sym e)) opened)
              | inr shut ↦ inl shut
            ],
          )
      go (_, v) e = inr ((λ k. absurd (ground (arith, k))), refl)

  use_response-Enrolled :
      (c : Credentials api) (w : World) (r : EspErr × EnrollResponse)
      → (r.0 ≡ EspErr.esp_ok → FitsArrays r.1)
      → Enrolled c (use_response api c w r)
  use_response-Enrolled c w (EspErr.esp_ok, resp) fits = adopt-Enrolled c w resp (fits refl)
  use_response-Enrolled c w (_, resp) fits = inr ((λ k. absurd (ground (arith, k))), refl)

  status_error_lem : (status : ℕ) → status_error api status ≢ EspErr.esp_ok
  status_error_lem status =
      if_cases (λ (e : EspErr). e ≢ EspErr.esp_ok) (status == 401)
        (λ _ k. absurd (ground (arith, k))) (λ _ k. absurd (ground (arith, k)))

  use_answer-Enrolled :
      (jsmn : Tokeniser) (c : Credentials api) (ret : EspErr) (x : Exchange api)
      → Enrolled c (use_answer api jsmn c ret x)
  unfolding use_answer
  use_answer-Enrolled jsmn c EspErr.esp_ok x =
      if_cases (Enrolled c) (not (x.status == 201)) (λ _. inr (status_error_lem x.status, refl))
        (λ _.
          use_response-Enrolled c x.world (decode_enroll_response jsmn x.body no_response)
            (decoded_fits jsmn x.body))
  use_answer-Enrolled jsmn c _ x = inr ((λ k. absurd (ground (arith, k))), refl)

  post-Enrolled :
      (jsmn : Tokeniser) (c : Credentials api) (url : Bytes) (r : EspErr × Option Bytes)
      → Encoded r
      → Enrolled c (post api jsmn c url r)
  unfolding post
  post-Enrolled jsmn c url (EspErr.esp_ok, some body) h =
      let memory = api.malloc c.world response_max in
      let client = api.http_init memory.1 url in
      let x = exchange_opened api body (api.http_open client.1 (length body)) in
      if_cases (Enrolled c) (not memory.0) (λ _. inr ((λ k. absurd (ground (arith, k))), refl))
        (λ _.
          if_cases (Enrolled c) (not client.0) (λ _. inr ((λ k. absurd (ground (arith, k))), refl))
            (λ _. use_answer-Enrolled jsmn c x.ret x))
  post-Enrolled jsmn c url (EspErr.esp_ok, none) h = elim h [
    | inl refused ↦ inr (refused, refl)
    | inr (body, e) ↦ absurd (ground (arith, e))
  ]
  post-Enrolled jsmn c url (_, body) h = inr ((λ k. absurd (ground (arith, k))), refl)

  -- Whatever NVS, the heap and the platform do: `enroll` returns ESP_OK, its new identity fits the arrays,
  -- and a load from NVS has the same three strings or cannot open it; or it returns an error, and the
  -- identity is the one before.
  pub enroll-Enrolled :
      (jsmn : Tokeniser) (device : Device) (c : Credentials api) (api_url token name : Option Bytes)
      → Enrolled c (enroll api jsmn device c api_url token name)
  unfolding enroll
  enroll-Enrolled jsmn device c (some api_url) (some (t ∷ token)) name =
      elim (Option-cases (enroll_url api_url)) [
        | inl long ↦ rw (long, enroll) (inr ((λ k. absurd (ground (arith, k))), refl))
        | inr (url, short) ↦
            rw (short, enroll)
              (post-Enrolled jsmn c url
                (encode_enroll_request (request device (t ∷ token) name) (replicate 320 0) 320)
                (request-Encoded (request device (t ∷ token) name) (replicate 320 0) 320))
      ]
  enroll-Enrolled jsmn device c none token name = inr ((λ k. absurd (ground (arith, k))), refl)
  enroll-Enrolled jsmn device c (some api_url) none name =
      inr ((λ k. absurd (ground (arith, k))), refl)
  enroll-Enrolled jsmn device c (some api_url) (some []) name =
      inr ((λ k. absurd (ground (arith, k))), refl)
