-- ===== src/Codec/Decode/Update.antt =====
-- What `decode_ota_params` accepts.
use esp_soulcloud_client.Prelude.{
  ℕ, ◌^◌, ◌<◌, ◌≡◌, refl, ap, ℤ, pos, negsuc, Bool, true, false, not, ◌&&◌, Option, none, some,
  length, codes, ◌⊎◌, c_string, ltb, leb, ◌==◌, if◌then◌else◌, if_cases, inl, inr, Bool-cases,
  arith,
}
use esp_soulcloud_client.Esp.{EspErr}
use esp_soulcloud_client.Json.Reader.{Reader, get_str, get_int}
use esp_soulcloud_client.Ota.{Params}
use esp_soulcloud_client.Codec.Decode.{and_str, read_size, with_size, decode_ota_params}

read_size-range :
    (z : Option ℤ) (n : ℕ) → read_size z ≡ some n → (z ≡ some (pos n)) × (0 < n) × (n < 2 ^ 32)
unfolding read_size
read_size-range none n e = absurd (ground (arith, e))
read_size-range (some (negsuc k)) n e = absurd (ground (arith, e))
read_size-range (some (pos k)) n e = elim (Bool-cases (ltb 0 k && leb k 4294967295)) [
  | inl good ↦
      (let same : k ≡ n = ground (arith, good, e) in
        (ap (λ m. some (pos m)) same, ground (arith, good, same), ground (arith, good, same)))
  | inr bad ↦ absurd (ground (arith, e, bad))
]

-- The parameters that the code can start an update with: a digest of 64 characters, and a size of 32 bits
-- that the document holds.
pub record IsUpdate (doc : Reader) (object : Option ℕ) (p : Params) : Type 0 where
  pub digest : length (c_string p.sha256) ≡ 64
  pub some_size : 0 < p.size
  pub size_fits : p.size < 2 ^ 32
  pub size_read : get_int doc object (codes "size") ≡ some (pos p.size)

digest_checked :
    (read : Bool) (len n : ℕ) (size : Option ℕ)
    → (if read && len == 64 then size else none) ≡ some n
    → len ≡ 64
digest_checked read len n size e = ground (arith, e)

size_checked :
    (ok : Bool) (n : ℕ) (size : Option ℕ) → (if ok then size else none) ≡ some n → size ≡ some n
size_checked true n size e = e
size_checked false n size e = absurd (ground (arith, e))

-- What is returned, for parameters `out` before.
abbrev Decoded : Reader → Option ℕ → Params → EspErr × Params → Type 0
Decoded doc object out r =
    ((r.0 ≡ EspErr.esp_ok) × IsUpdate doc object r.1)
    ⊎ ((r.0 ≡ EspErr.invalid_arg) × (r.1.size ≡ out.size) × (r.1.version ≡ out.version))

with_size-Decoded :
    (doc : Reader) (object : Option ℕ) (out : Params) (size : Option ℕ)
    → ((n : ℕ) → size ≡ some n → length (c_string out.sha256) ≡ 64)
    → ((n : ℕ) → size ≡ some n → read_size (get_int doc object (codes "size")) ≡ some n)
    → Decoded doc object out (with_size doc object out size)
unfolding with_size
with_size-Decoded doc object out none digest read = inr (refl, refl, refl)
with_size-Decoded doc object out (some n) digest read =
    let (e, low, high) = read_size-range (get_int doc object (codes "size")) n (read n refl) in
    if_cases (Decoded doc object out) (not (get_str doc object (codes "taskId") 40 out.task_id).0)
      (λ _. inr (refl, refl, refl))
      (λ _.
        inl (
          refl,
          record { digest = digest n refl; some_size = low; size_fits = high; size_read = e },
        ))

-- For any document, object and parameters before: `decode_ota_params` succeeds and leaves parameters with a
-- digest of 64 characters and the size that the document holds, which is positive and fits 32 bits; or
-- it fails with ESP_ERR_INVALID_ARG and leaves the size and the version alone.
pub decode_ota_params-IsUpdate :
    (doc : Reader) (object : Option ℕ) (out : Params)
    → (let r = decode_ota_params doc object out in
        ((r.0 ≡ EspErr.esp_ok) × IsUpdate doc object r.1)
        ⊎ ((r.0 ≡ EspErr.invalid_arg) × (r.1.size ≡ out.size) × (r.1.version ≡ out.version)))
unfolding decode_ota_params
decode_ota_params-IsUpdate doc object out =
    let url = get_str doc object (codes "url") 384 out.url in
    let sha256 = and_str url.0 (get_str doc object (codes "sha256") 65 out.sha256) out.sha256 in
    let ok = sha256.0 && length (c_string sha256.1) == 64 in
    let size = get_int doc object (codes "size") in
    with_size-Decoded doc object (record out { url = url.1; sha256 = sha256.1 })
      (if ok then read_size size else none)
      (λ n e. digest_checked sha256.0 (length (c_string sha256.1)) n (read_size size) e)
      (λ n e. size_checked ok n (read_size size) e)
