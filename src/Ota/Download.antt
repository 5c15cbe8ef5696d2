-- ===== src/Ota/Download.antt =====
-- The download of an image: it comes to an end, and what it leaves in the OTA partition is what was
-- hashed.
use esp_soulcloud_client.Prelude.{
  ℕ, zero, suc, ◌+◌, ◌-◌, ◌*◌, ◌/◌, ◌≤◌, ◌<◌, [], ◌∷◌, ◌++◌, ◌≡◌, refl, sym, ap, ◌∙◌, inl, inr,
  Option, some, Bytes, length, ltb, leb, ℤ, pos, negsuc, length-append, if_cases, Option-cases,
  arith,
}
use esp_soulcloud_client.Esp.{EspErr}
use esp_soulcloud_client.Ota.{
  Params, Platform, Task, Next, more, finish, report_progress, chunk_written, take_chunk,
  read_round, read_loop, some_or_error, status_ok, download_from, Round, again, ended, failed,
  after_read, round, download_loop, download, max_attempts, min,
}

module _ (api : Platform) where
  -- `n` bytes of the image are in the partition, and hashed.
  pub record Taken (n : ℕ) (t : Task api) : Type 0 where
    pub same : t.hashed ≡ t.written
    pub count_is : length t.written ≡ n

  report_progress-keeps :
      (t : Task api) (progress : ℕ)
      → ((report_progress api t progress).written ≡ t.written)
        × ((report_progress api t progress).hashed ≡ t.hashed)
  unfolding report_progress
  report_progress-keeps t progress = ground arith

  -- A round of the inner loop reads at least a byte or ends with an allowed result.
  abbrev After : ℕ → ℕ → Task api → ℤ → Type 0
  After size offset t (pos n) = Taken (offset + n) t × (offset + n ≤ size)
  After size offset t (negsuc zero) = Taken offset t
  After size offset t (negsuc (suc n)) = Unit

  abbrev Goes : ℕ → ℕ → ℕ → Next api → Type 0
  Goes size offset total (more t total') =
      Taken (offset + total') t × (total < total') × (offset + total' ≤ size)
  Goes size offset total (finish t r) = After size offset t r

  chunk_written-Goes :
      (t : Task api) (size offset total : ℕ) (b : ℕ) (bs : Bytes) (e : EspErr)
      → Taken (offset + total) t
      → offset + total + length (b ∷ bs) ≤ size
      → Goes size offset total (chunk_written api t size offset total (b ∷ bs) e)
  unfolding chunk_written
  chunk_written-Goes t size offset total b bs EspErr.esp_ok h le =
      let n = length-append t.written (b ∷ bs) in
      let k =
        report_progress-keeps
          (record t { written = t.written ++ b ∷ bs; hashed = t.hashed ++ b ∷ bs })
          ((offset + (total + length (b ∷ bs))) * 100 / size) in
      (
        record {
          same = k.1 ∙ ap (λ x. x ++ b ∷ bs) h.same ∙ sym k.0;
          count_is = ap length k.0 ∙ omega (arith, n, h.count_is);
        },
        omega arith,
        omega arith,
      )
  chunk_written-Goes t size offset total b bs _ h le = tt

  take_chunk-Goes :
      (t : Task api) (size offset total : ℕ) (bytes : Bytes)
      → Taken (offset + total) t
      → offset + total + length bytes ≤ size
      → Goes size offset total (take_chunk api t size offset total bytes)
  unfolding take_chunk
  take_chunk-Goes t size offset total [] h le = (h, omega arith)
  take_chunk-Goes t size offset total (b ∷ bs) h le =
      let w = api.write t.world (b ∷ bs) in
      chunk_written-Goes (record t { world = w.1 }) size offset total b bs w.0
        (record { same = h.same; count_is = h.count_is }) le

  module _ (http_buffer : ℕ) (params : Params) where
    read_round-Goes :
        (t : Task api) (offset total : ℕ)
        → Taken (offset + total) t
        → offset + total ≤ params.size
        → Goes params.size offset total (read_round api http_buffer params t offset total)
    unfolding read_round
    read_round-Goes t offset total h le =
        if_cases (Goes params.size offset total) (ltb (offset + total) params.size)
          (λ room.
            let c = api.cancelled t.world in
            let want = min api (params.size - offset - total) http_buffer in
            let r = api.read c.1 want in
            let fits = api.read_fits c.1 want in
            let small : want ≤ params.size - offset - total = ground arith in
            if_cases (Goes params.size offset total) c.0
              (λ stopped. (record { same = h.same; count_is = h.count_is }, le))
              (λ on.
                take_chunk-Goes (record t { world = r.1 }) params.size offset total r.0
                  (record { same = h.same; count_is = h.count_is })
                  (ground (arith, fits, small, room))))
          (λ full. (h, le))

    -- The inner loop ends, where there is more fuel than bytes to come.
    read_loop-ends :
        (fuel : ℕ) (t : Task api) (offset total : ℕ)
        → Taken (offset + total) t
        → offset + total ≤ params.size
        → params.size < offset + total + fuel
        → (t' : Task api) × (r : ℤ) × (read_loop api http_buffer params fuel t offset total
            ≡ some (t', r))
          × After params.size offset t' r
    unfolding read_loop
    read_loop-ends zero t offset total h le enough = absurd (omega arith)
    read_loop-ends (suc fuel) t offset total h le enough =
        go (read_round api http_buffer params t offset total) refl
          (read_round-Goes t offset total h le) (λ t' total'. read_loop-ends fuel t' offset total')
      where
        go :
            (next : Next api)
            → read_round api http_buffer params t offset total ≡ next
            → Goes params.size offset total next
            → ((t1 : Task api) (total1 : ℕ)
                → Taken (offset + total1) t1
                → offset + total1 ≤ params.size
                → params.size < offset + total1 + fuel
                → (t' : Task api) × (r : ℤ) × (read_loop api http_buffer params fuel t1 offset
                      total1
                    ≡ some (t', r))
                  × After params.size offset t' r)
            → (t' : Task api) × (r : ℤ) × (read_loop api http_buffer params
                  (suc fuel)
                  t
                  offset
                  total
                ≡ some (t', r))
              × After params.size offset t' r
        go (more t' total') e g ends =
            let (t'', r, f, a) = ends t' total' g.0 g.2 (omega (arith, g.1)) in
            (t'', r, rw (e, read_loop) f, a)
        go (finish t' r) e g ends = (t', r, rw (e, read_loop) refl, g)

    -- One connection: what it reports is what it put behind the offset.
    abbrev Behind : ℕ → Task api → ℤ → Type 0
    Behind offset t (pos zero) = ⊥
    Behind offset t (pos (suc n)) = Taken (offset + suc n) t × (offset + suc n ≤ params.size)
    Behind offset t (negsuc zero) = Taken offset t
    Behind offset t (negsuc (suc n)) = Unit

    some_or_error-Behind :
        (offset : ℕ) (t : Task api) (r : ℤ)
        → After params.size offset t r
        → Behind offset t (some_or_error api http_buffer params r)
    some_or_error-Behind offset t (pos zero) a = record {
      same = a.0.same;
      count_is = omega (arith, a.0.count_is);
    }
    some_or_error-Behind offset t (pos (suc n)) a = a
    some_or_error-Behind offset t (negsuc zero) a = a
    some_or_error-Behind offset t (negsuc (suc n)) a = tt

    abbrev Connected : ℕ → Option (Task api × ℤ) → Type 0
    Connected offset o = (t' : Task api) × (r : ℤ) × (o ≡ some (t', r)) × Behind offset t' r

    download_from-ends :
        (t : Task api) (offset : ℕ)
        → Taken offset t
        → offset ≤ params.size
        → Connected offset (download_from api http_buffer params t offset)
    unfolding download_from
    download_from-ends t offset h le =
        let c = api.connect t.world params.url offset in
        let t0 : Task api = record t { world = c.1 } in
        let h0 : Taken offset t0 = record { same = h.same; count_is = h.count_is } in
        elim (Option-cases c.0) [
          | inl none_there ↦ rw (none_there, download_from) (t0, negsuc 0, refl, h0)
          | inr (status, there) ↦
              rw (there, download_from)
                (if_cases (Connected offset) (status_ok api http_buffer params offset status)
                  (λ good.
                    let (t', r, e, a) =
                      read_loop-ends (suc params.size) t0 offset 0
                        (record { same = h.same; count_is = omega (arith, h.count_is) })
                        (omega arith) (omega arith) in
                    rw e (
                      t',
                      some_or_error api http_buffer params r,
                      refl,
                      some_or_error-Behind offset t' r a,
                    ))
                  (λ bad.
                    if_cases (Connected offset) (leb 400 status) (λ gone. (t0, negsuc 1, refl, tt))
                      (λ other. (t0, negsuc 0, refl, h0))))
        ]

    -- The measure of the outer loop: the bytes that are left and the failures that are.
    abbrev left : ℕ → ℕ → ℕ
    left offset attempts = (params.size - offset) * 5 + (5 - attempts)

    abbrev Turns : ℕ → ℕ → Round api http_buffer params → Type 0
    Turns offset attempts (again t offset' attempts') =
        Taken offset' t
        × (offset' ≤ params.size)
        × (attempts' < 5)
        × (left offset' attempts' < left offset attempts)
    Turns offset attempts (ended t EspErr.esp_ok) = Taken params.size t
    Turns offset attempts (ended t _) = Unit

    failed-Turns :
        (t : Task api) (offset attempts : ℕ)
        → Taken offset t
        → offset ≤ params.size
        → attempts < 5
        → Turns offset attempts (failed api http_buffer params t offset (attempts + 1))
    unfolding failed
    failed-Turns t offset attempts h le few =
        if_cases (Turns offset attempts) (leb max_attempts (attempts + 1)) (λ enough. tt)
          (λ not_yet.
            (record { same = h.same; count_is = h.count_is }, le, ground arith, ground arith))

    after_read-Turns :
        (t : Task api) (offset attempts : ℕ) (r : ℤ)
        → Behind offset t r
        → offset ≤ params.size
        → attempts < 5
        → Turns offset attempts (after_read api http_buffer params t offset attempts r)
    unfolding after_read
    after_read-Turns t offset attempts (pos zero) b le few = absurd b
    after_read-Turns t offset attempts (pos (suc n)) b le few =
        (b.0, b.1, omega arith, omega (arith, b.1))
    after_read-Turns t offset attempts (negsuc zero) b le few =
        failed-Turns t offset attempts b le few
    after_read-Turns t offset attempts (negsuc (suc n)) b le few = tt

    abbrev Rounds : ℕ → ℕ → Option (Round api http_buffer params) → Type 0
    Rounds offset attempts o =
        (next : Round api http_buffer params) × (o ≡ some next) × Turns offset attempts next

    round-Turns :
        (t : Task api) (offset attempts : ℕ)
        → Taken offset t
        → offset ≤ params.size
        → attempts < 5
        → Rounds offset attempts (round api http_buffer params t offset attempts)
    unfolding round
    round-Turns t offset attempts h le few =
        let c = api.cancelled t.world in
        let t0 : Task api = record t { world = c.1 } in
        if_cases (Rounds offset attempts) (ltb offset params.size)
          (λ room.
            if_cases (Rounds offset attempts) c.0
              (λ stopped. (ended t0 EspErr.invalid_state, refl, tt))
              (λ on.
                let (t', r, e, b) =
                  download_from-ends t0 offset (record { same = h.same; count_is = h.count_is })
                    le in
                rw e (
                  after_read api http_buffer params t' offset attempts r,
                  refl,
                  after_read-Turns t' offset attempts r b le few,
                )))
          (λ full.
            let whole : offset ≡ params.size = ground (arith, full) in
            (ended t EspErr.esp_ok, refl, record { same = h.same; count_is = h.count_is ∙ whole }))

    abbrev pub Done : Task api → EspErr → Type 0
    Done t EspErr.esp_ok = Taken params.size t
    Done t _ = Unit

    abbrev Ends : Option (Task api × EspErr) → Type 0
    Ends o = (t : Task api) × (e : EspErr) × (o ≡ some (t, e)) × Done t e

    download_loop-Ends :
        (fuel : ℕ) (t : Task api) (offset attempts : ℕ)
        → Taken offset t
        → offset ≤ params.size
        → attempts < 5
        → left offset attempts < fuel
        → Ends (download_loop api http_buffer params fuel t offset attempts)
    unfolding download_loop
    download_loop-Ends zero t offset attempts h le few enough = absurd (omega arith)
    download_loop-Ends (suc fuel) t offset attempts h le few enough =
        let (next, e, turn) = round-Turns t offset attempts h le few in
        rw (e, download_loop) (go next turn (download_loop-Ends fuel))
      where
        go :
            (next : Round api http_buffer params)
            → Turns offset attempts next
            → ((t1 : Task api) (offset1 attempts1 : ℕ)
                → Taken offset1 t1
                → offset1 ≤ params.size
                → attempts1 < 5
                → left offset1 attempts1 < fuel
                → Ends (download_loop api http_buffer params fuel t1 offset1 attempts1))
            → Ends (elim next [
              | again t' offset' attempts' ↦
                  download_loop api http_buffer params fuel t' offset' attempts'
              | ended t' e ↦ some (t', e)
            ])
        go (again t1 offset1 attempts1) turn ends =
            ends t1 offset1 attempts1 turn.0 turn.1 turn.2 (omega (arith, turn.3))
        go (ended t1 EspErr.esp_ok) turn ends = (t1, EspErr.esp_ok, refl, turn)
        go (ended t1 _) turn ends = (t1, _, refl, tt)

    -- A download comes to an end, whatever the server, the connection and the partition do; where it
    -- succeeds, the bytes in the partition are as many as the update's size and are the bytes hashed.
    pub download-ends :
        (t : Task api)
        → t.written ≡ []
        → t.hashed ≡ []
        → (t' : Task api) × (e : EspErr) × (download api http_buffer params t ≡ some (t', e))
          × Done t' e
    unfolding download
    download-ends t no_write no_hash =
        download_loop-Ends (params.size * 5 + 6) t 0 0
          (record { same = no_hash ∙ sym no_write; count_is = ap length no_write }) (omega arith)
          (omega arith) (omega arith)
