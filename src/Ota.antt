-- ===== src/Ota.antt =====
-- `sc_ota`: firmware updates (src/sc_ota.cpp, src/sc_ota.hpp, `sc_ota_params` of src/sc_messages.hpp).
pub mod Download
pub mod Control
pub mod Boot
use esp_soulcloud_client.Prelude.{
  ℕ, zero, suc, ◌≤◌, ◌<◌, ◌+◌, ◌-◌, ◌*◌, ◌/◌, List, [], ◌∷◌, ◌++◌, Bool, true, false, not, ◌&&◌,
  Option, none, some, Bytes, codes, length, equal, ltb, leb, ◌==◌, if◌then◌else◌, ℤ, pos, negsuc,
}
use esp_soulcloud_client.Esp.{EspErr}
use esp_soulcloud_client.Json.Page.{hex_text}

-- `sc_ota_params`.
pub record Params : Type 0 where
  pub url : Bytes
  pub sha256 : Bytes
  pub size : ℕ
  pub version : Bytes
  pub task_id : Bytes

-- What the update calls outside the repository: the HTTP client, the OTA partition, the hash, the
-- clock, and `cancel_requested`, which another task sets. `connect` is `esp_http_client_init` up to
-- the status code: `none` where there is no client, 0 where the request fails. A read that gives no
-- bytes is one that returns 0 or less.
pub record Platform : Type 1 where
  pub World : Type 0
  pub cancelled : World → Bool × World
  pub connect : World → Bytes → ℕ → Option ℕ × World
  pub read : World → ℕ → Bytes × World
  pub write : World → Bytes → EspErr × World
  pub now : World → ℕ × World
  pub wait : World → ℕ → World
  pub partition : World → Option ℕ
  pub begin : World → ℕ → EspErr × World
  pub end : World → EspErr × World
  pub set_boot : World → EspErr × World
  pub sha256_of : Bytes → Bytes
  pub err_name : EspErr → Bytes
  pub read_fits : (w : World) (want : ℕ) → length ((read w want).0) ≤ want

abbrev pub max_attempts : ℕ
max_attempts = 5

abbrev pub report_interval_us : ℕ
report_interval_us = 2000000

-- An event `evt/ota`; a progress of -1 is left out.
pub record Report : Type 0 where
  pub state : Bytes
  pub progress : Option ℕ
  pub error : Option Bytes

abbrev pub differs : Option ℕ → ℕ → Bool
differs none progress = true
differs (some last) progress = not (last == progress)

module _ (api : Platform) where
  open api use {World, cancelled, connect, read, write, now, wait}

  -- The task's members, the bytes that `esp_ota_write` took and those that `psa_hash_update` took.
  pub record Task : Type 0 where
    pub world : World
    pub written : Bytes
    pub hashed : Bytes
    pub last_progress : Option ℕ
    pub last_report_us : ℕ
    pub reports : List Report

  -- The loop of `download_from` goes on with the bytes read so far, or ends with its result.
  pub data Next : Type 0 where
    more : Task → ℕ → Next
    finish : Task → ℤ → Next

  abbrev pub report : Task → Bytes → Option ℕ → Option Bytes → Task
  report t state progress error = record t {
    reports = t.reports ++ record { state = state; progress = progress; error = error } ∷ [];
  }

  unfoldable pub report_progress : Task → ℕ → Task
  report_progress t progress =
      let clock = now t.world in
      if differs t.last_progress progress && leb (t.last_report_us + report_interval_us) clock.0
      then record (report (record t { world = clock.1 }) (codes "downloading") (some progress)
          none) { last_progress = some progress; last_report_us = clock.0 }
      else record t { world = clock.1 }

  -- What `esp_ota_write` said of the chunk `bytes`. `psa_hash_update`, whose result the code does not look at,
  -- is taken to succeed.
  unfoldable pub chunk_written : Task → ℕ → ℕ → ℕ → Bytes → EspErr → Next
  chunk_written t size offset total bytes EspErr.esp_ok =
      more
        (report_progress (record t { written = t.written ++ bytes; hashed = t.hashed ++ bytes })
          ((offset + (total + length bytes)) * 100 / size))
        (total + length bytes)
  chunk_written t size offset total bytes _ = finish t (negsuc 1)

  -- What the read gave, behind the `offset + total` bytes that are in the partition.
  unfoldable pub take_chunk : Task → ℕ → ℕ → ℕ → Bytes → Next
  take_chunk t size offset total [] = finish t (pos total)
  take_chunk t size offset total (b ∷ bs) =
      let w = write t.world (b ∷ bs) in
      chunk_written (record t { world = w.1 }) size offset total (b ∷ bs) w.0

  abbrev pub min : ℕ → ℕ → ℕ
  min a b = if ltb b a then b else a

  module _ (http_buffer : ℕ) (params : Params) where
    -- One round of the loop of `download_from`, `total` bytes behind `offset`.
    unfoldable pub read_round : Task → ℕ → ℕ → Next
    read_round t offset total =
        if ltb (offset + total) params.size
        then (let c = cancelled t.world in
            let r = read c.1 (min (params.size - offset - total) http_buffer) in
            if c.0
            then finish (record t { world = c.1 }) (pos total)
            else take_chunk (record t { world = r.1 }) params.size offset total r.0)
        else finish t (pos total)

    -- The loop itself; `none` where the fuel is too little.
    unfoldable pub read_loop : ℕ → Task → ℕ → ℕ → Option (Task × ℤ)
    read_loop zero t offset total = none
    read_loop (suc fuel) t offset total = elim (read_round t offset total) [
      | more t' total' ↦ read_loop fuel t' offset total'
      | finish t' result ↦ some (t', result)
    ]

    abbrev pub status_ok : ℕ → ℕ → Bool
    status_ok offset status = if offset == 0 then status == 200 else status == 206

    -- `total_read == 0 ? -1 : total_read`.
    abbrev pub some_or_error : ℤ → ℤ
    some_or_error (pos zero) = negsuc 0
    some_or_error r = r

    unfoldable pub download_from : Task → ℕ → Option (Task × ℤ)
    download_from t offset =
        let c = connect t.world params.url offset in
        elim c.0 [
          | none ↦ some (record t { world = c.1 }, negsuc 0)
          | some status ↦
              if status_ok offset status
              then elim (read_loop (suc params.size) (record t { world = c.1 }) offset 0) [
                | none ↦ none
                | some (t', r) ↦ some (t', some_or_error r)
              ]
              else if leb 400 status
              then some (record t { world = c.1 }, negsuc 1)
              else some (record t { world = c.1 }, negsuc 0)
        ]

    -- The loop of `download` goes on at an offset with a count of failures, or ends with an error code.
    pub data Round : Type 0 where
      again : Task → ℕ → ℕ → Round
      ended : Task → EspErr → Round

    unfoldable pub failed : Task → ℕ → ℕ → Round
    failed t offset attempts =
        if leb max_attempts attempts
        then ended t EspErr.timeout
        else again (record t { world = wait t.world (1000 * attempts) }) offset attempts

    unfoldable pub after_read : Task → ℕ → ℕ → ℤ → Round
    after_read t offset attempts (pos zero) = failed t offset (attempts + 1)
    after_read t offset attempts (pos (suc n)) = again t (offset + suc n) 0
    after_read t offset attempts (negsuc zero) = failed t offset (attempts + 1)
    after_read t offset attempts (negsuc (suc n)) = ended t EspErr.invalid_response

    unfoldable pub round : Task → ℕ → ℕ → Option Round
    round t offset attempts =
        if ltb offset params.size
        then (let c = cancelled t.world in
            if c.0
            then some (ended (record t { world = c.1 }) EspErr.invalid_state)
            else elim (download_from (record t { world = c.1 }) offset) [
              | none ↦ none
              | some (t', r) ↦ some (after_read t' offset attempts r)
            ])
        else some (ended t EspErr.esp_ok)

    unfoldable pub download_loop : ℕ → Task → ℕ → ℕ → Option (Task × EspErr)
    download_loop zero t offset attempts = none
    download_loop (suc fuel) t offset attempts = elim (round t offset attempts) [
      | none ↦ none
      | some (again t' offset' attempts') ↦ download_loop fuel t' offset' attempts'
      | some (ended t' e) ↦ some (t', e)
    ]

    -- `download`, where the read buffer and the hash are there. A round makes progress or is one of
    -- five failures in a row.
    unfoldable pub download : Task → Option (Task × EspErr)
    download t = download_loop (params.size * 5 + 6) t 0 0

    abbrev pub fail : Task → Bytes → Task
    fail t error = report t (codes "failed") none (some error)

    -- How `run` ends: what it returns, and whether the boot partition was switched.
    pub record Ending : Type 0 where
      pub task : Task
      pub ret : EspErr
      pub booted : Bool

    abbrev pub stop : Task → EspErr → Ending
    stop t e = record { task = t; ret = e; booted = false }

    -- What `esp_ota_set_boot_partition` said.
    unfoldable pub switched : Task → EspErr → Ending
    switched t EspErr.esp_ok = record {
      task = report t (codes "rebooting") (some 100) none;
      ret = EspErr.esp_ok;
      booted = true;
    }
    switched t e = stop (fail t (api.err_name e)) e

    -- What `esp_ota_end` said: `ret ?: esp_ota_set_boot_partition(partition)`.
    unfoldable pub image_ended : Task → EspErr → Ending
    image_ended t EspErr.esp_ok =
        let b = api.set_boot t.world in switched (record t { world = b.1 }) b.0
    image_ended t e = stop (fail t (api.err_name e)) e

    -- `run` behind a whole download.
    unfoldable pub verify : Task → Ending
    verify t =
        let t' = report t (codes "verifying") (some 100) none in
        let done = api.end t'.world in
        if equal (hex_text (api.sha256_of t'.hashed)) params.sha256
        then image_ended (record t' { world = done.1 }) done.0
        else stop (fail t' (codes "SHA-256 mismatch")) EspErr.invalid_crc

    unfoldable pub finish_download : Task → EspErr → Ending
    finish_download t EspErr.esp_ok = verify t
    finish_download t e =
        let c = cancelled t.world in
        stop (fail (record t { world = c.1 }) (if c.0 then codes "cancelled" else api.err_name e)) e

    -- What `esp_ota_begin` said.
    unfoldable pub begun : Task → EspErr → Option Ending
    begun t EspErr.esp_ok = elim (download t) [
      | none ↦ none
      | some (t', e) ↦ some (finish_download t' e)
    ]
    begun t e = some (stop (fail t (api.err_name e)) e)

    -- `run`, the aborting of the OTA handle left out; `none` where the fuel is too little.
    unfoldable pub run : Task → Option Ending
    run t = elim (api.partition t.world) [
      | none ↦ some (stop (fail t (codes "no OTA partition")) EspErr.invalid_size)
      | some room ↦
          if ltb room params.size
          then some
              (stop (fail t (codes "image larger than the OTA partition")) EspErr.invalid_size)
          else (let t' = report t (codes "downloading") (some 0) none in
              let b = api.begin t'.world params.size in begun (record t' { world = b.1 }) b.0)
    ]
