-- ===== src/Logs/Batches.antt =====
-- What the upload task publishes of the items it takes from a ring.
use esp_soulcloud_client.Prelude.{
  ℕ, ◌≤◌, ◌<◌, ◌+◌, ◌-◌, List, [], ◌∷◌, ◌++◌, ◌≡◌, refl, sym, ap, subst, ◌∙◌, ◌⊎◌, inl, inr, ◌&&◌,
  Bytes, length, take, ltb, if◌then◌else◌, if_cases, Bool-cases, append-nil, append_assoc,
  length-append, arith,
}
use esp_soulcloud_client.Prelude.Memory.{take-copy_at, length-copy_at}
use esp_soulcloud_client.Esp.{EspErr}
use esp_soulcloud_client.Logs.{
  Upload, empty_upload, time_sync_len, append_batch, close_batch, put_item, put_items, upload_bin,
}

abbrev pub concat : List Bytes → Bytes
concat [] = []
concat (x ∷ xs) = x ++ concat xs

pub concat-append : (xs ys : List Bytes) → concat (xs ++ ys) ≡ concat xs ++ concat ys
concat-append [] ys = refl
concat-append (x ∷ xs) ys =
    ap (λ t. x ++ t) (concat-append xs ys) ∙ sym (append_assoc x (concat xs) (concat ys))

pub concat-snoc : (xs : List Bytes) (x : Bytes) → concat (xs ++ x ∷ []) ≡ concat xs ++ x
concat-snoc xs x = concat-append xs (x ∷ []) ∙ ap (λ t. concat xs ++ t) (append-nil x)

pub length_zero : (xs : Bytes) → length xs ≡ 0 → xs ≡ []
length_zero [] h = refl
length_zero (x ∷ xs) h = absurd (ground (arith, h))

-- The batch buffer keeps its size, and starts with `open`.
pub record Holding (batch_size : ℕ) (u : Upload) (bytes : Bytes) : Type 0 where
  pub size : length u.batch ≡ batch_size
  pub len_is : u.len ≡ length bytes
  pub bytes_are : take u.len u.batch ≡ bytes

pub append_batch-Holding :
    (batch_size : ℕ) (u : Upload) (bytes more : Bytes)
    → Holding batch_size u bytes
    → length bytes + length more ≤ batch_size
    → Holding batch_size (append_batch u more) (bytes ++ more)
append_batch-Holding batch_size u bytes more h fits =
    let n = length-append bytes more in
    record {
      size = length-copy_at more u.batch u.len ∙ h.size;
      len_is = omega (arith, n, h.len_is);
      bytes_are =
          take-copy_at more u.batch u.len (u.len + length more) refl
            (omega (arith, h.len_is, h.size))
          ∙ ap (λ t. t ++ more) h.bytes_are;
    }

module _ (batch_size : ℕ) (sync : ℕ → Bytes) where
  -- The messages, the newest first, carry the packets: each message is a run of whole packets, with a
  -- time packet behind it and in the size of a batch, or one packet alone that is too long for that,
  -- behind empty ones at most.
  abbrev pub Carries : List Bytes → List Bytes → Type 0
  Carries [] packets = packets ≡ []
  Carries (m ∷ ms) packets =
      (before : List Bytes) × (run : List Bytes) × (packets ≡ before ++ run)
      × (((m ≡ concat run ++ sync (length ms)) × (length m ≤ batch_size))
          ⊎ ((idle : List Bytes) × (run ≡ idle ++ m ∷ [])
              × (concat idle ≡ [])
              × (batch_size < length m + time_sync_len)))
      × Carries ms before

  -- The messages and the open batch carry the packets.
  pub record Uploads (u : Upload) (packets : List Bytes) : Type 0 where
    pub before : List Bytes
    pub open_run : List Bytes
    pub parts : packets ≡ before ++ open_run
    pub carried : Carries u.sent before
    pub held : Holding batch_size u (concat open_run)
    pub room : length (concat open_run) + time_sync_len ≤ batch_size

  -- All packets are carried, but for empty ones at the end.
  abbrev pub AllCarried : List Bytes → List Bytes → Type 0
  AllCarried sent packets =
      (carried : List Bytes) × (rest : List Bytes) × (packets ≡ carried ++ rest)
      × (concat rest ≡ [])
      × Carries sent carried

  module _ (sync_fits : (k : ℕ) → length (sync k) ≤ time_sync_len)
      (large : time_sync_len < batch_size) where
    close_batch-Uploads :
        (u : Upload) (packets : List Bytes)
        → Uploads u packets
        → Uploads (close_batch batch_size sync u) packets
          × ((close_batch batch_size sync u).len ≡ 0)
    unfolding close_batch
    close_batch-Uploads u packets h =
        let s = sync (length u.sent) in
        let fits = sync_fits (length u.sent) in
        let full =
          append_batch-Holding batch_size u (concat h.open_run) s h.held
            (omega (arith, fits, h.room)) in
        let n = length-append (concat h.open_run) s in
        let m = ap length full.bytes_are in
        (
          record {
            before = packets;
            open_run = [];
            parts = sym (append-nil packets);
            carried = (
              h.before,
              h.open_run,
              h.parts,
              inl (full.bytes_are, omega (arith, m, n, fits, h.room)),
              h.carried,
            );
            held = record { size = full.size; len_is = refl; bytes_are = refl };
            room = omega (arith, large);
          },
          refl,
        )

    alone-Uploads :
        (u : Upload) (packets : List Bytes) (item : Bytes)
        → Uploads u packets
        → u.len ≡ 0
        → batch_size < length item + time_sync_len
        → Uploads (record u { sent = item ∷ u.sent }) (packets ++ item ∷ [])
    alone-Uploads u packets item h none_open long =
        let closed : concat h.open_run ≡ [] =
          length_zero (concat h.open_run) (omega (arith, h.held.len_is, none_open)) in
        record {
          before = packets ++ item ∷ [];
          open_run = [];
          parts = sym (append-nil (packets ++ item ∷ []));
          carried = (
            h.before,
            h.open_run ++ item ∷ [],
            ap (λ t. t ++ item ∷ []) h.parts ∙ append_assoc h.before h.open_run (item ∷ []),
            inr (h.open_run, refl, closed, long),
            h.carried,
          );
          held = record {
            size = h.held.size;
            len_is = none_open;
            bytes_are = ap (λ k. take k u.batch) none_open;
          };
          room = omega (arith, large);
        }

    append_batch-Uploads :
        (u : Upload) (packets : List Bytes) (item : Bytes)
        → Uploads u packets
        → u.len + length item + time_sync_len ≤ batch_size
        → Uploads (append_batch u item) (packets ++ item ∷ [])
    append_batch-Uploads u packets item h fits =
        let c = concat-snoc h.open_run item in
        let n = length-append (concat h.open_run) item in
        let k = ap length c in
        record {
          before = h.before;
          open_run = h.open_run ++ item ∷ [];
          parts = ap (λ t. t ++ item ∷ []) h.parts ∙ append_assoc h.before h.open_run (item ∷ []);
          carried = h.carried;
          held =
              subst (λ t. Holding batch_size (append_batch u item) t) (sym c)
                (append_batch-Holding batch_size u (concat h.open_run) item h.held
                  (omega (arith, fits, h.held.len_is)));
          room = omega (arith, n, k, fits, h.held.len_is);
        }

    -- The state before the item is stored: there is room for it, or it is too large for any batch and
    -- nothing is open.
    stored :
        (u : Upload) (packets : List Bytes) (item : Bytes)
        → Uploads u packets
        → (u.len + length item + time_sync_len ≤ batch_size) ⊎ (u.len ≡ 0)
        → Uploads
            (if ltb (batch_size - time_sync_len) (length item)
              then record u { sent = item ∷ u.sent }
              else append_batch u item)
            (packets ++ item ∷ [])
    stored u packets item h (inl fits) =
        if_cases (λ w. Uploads w (packets ++ item ∷ []))
          (ltb (batch_size - time_sync_len) (length item))
          (λ long. absurd (ground (arith, fits, long)))
          (λ short. append_batch-Uploads u packets item h fits)
    stored u packets item h (inr none_open) =
        if_cases (λ w. Uploads w (packets ++ item ∷ []))
          (ltb (batch_size - time_sync_len) (length item))
          (λ long. alone-Uploads u packets item h none_open (ground (arith, long)))
          (λ short. append_batch-Uploads u packets item h (ground (arith, short, none_open, large)))

    put_item-Uploads :
        (u : Upload) (packets : List Bytes) (item : Bytes)
        → Uploads u packets
        → Uploads (put_item batch_size sync u item) (packets ++ item ∷ [])
    unfolding put_item
    put_item-Uploads u packets item h =
        elim (Bool-cases (ltb (batch_size - time_sync_len) (u.len + length item) && ltb 0 u.len)) [
          | inl full ↦
              (let closed = close_batch-Uploads u packets h in
                rw full
                  (stored (close_batch batch_size sync u) packets item closed.0 (inr closed.1)))
          | inr open_yet ↦
              (let room : (u.len + length item + time_sync_len ≤ batch_size) ⊎ (u.len ≡ 0) =
                  ground (arith, open_yet, large) in
                rw open_yet (stored u packets item h room))
        ]

    put_items-Uploads :
        (items : List Bytes) (u : Upload) (packets : List Bytes)
        → Uploads u packets
        → Uploads (put_items batch_size sync u items) (packets ++ items)
    unfolding put_items
    put_items-Uploads [] u packets h = subst (λ t. Uploads u t) (sym (append-nil packets)) h
    put_items-Uploads (item ∷ items) u packets h =
        subst (λ t. Uploads (put_items batch_size sync (put_item batch_size sync u item) items) t)
          (append_assoc packets (item ∷ []) items)
          (put_items-Uploads items (put_item batch_size sync u item) (packets ++ item ∷ [])
            (put_item-Uploads u packets item h))

    Uploads-AllCarried :
        (u : Upload) (packets : List Bytes)
        → Uploads u packets
        → u.len ≡ 0
        → AllCarried u.sent packets
    Uploads-AllCarried u packets h none_open = (
      h.before,
      h.open_run,
      h.parts,
      length_zero (concat h.open_run) (omega (arith, h.held.len_is, none_open)),
      h.carried,
    )

    -- For time packets of at most 22 bytes, a batch larger than that, and a DROPPED packet that fits with a
    -- time packet behind it: `upload_bin` gives the DROPPED packet and then every item of the ring to
    -- `publish`, each once and in that order, but for empty ones at the end, and whatever `publish` returns.
    -- Each message is a run of whole packets with a time packet behind it, in the size of a batch, or it
    -- is one packet alone, without a time packet and too long for a batch with one, where nothing but empty
    -- packets came between it and the message before.
    pub upload_bin-AllCarried :
        (results : ℕ → EspErr) (batch dropped : Bytes) (items : List Bytes)
        → length batch ≡ batch_size
        → length dropped + time_sync_len ≤ batch_size
        → AllCarried (upload_bin batch_size sync results batch dropped items).sent (dropped ∷ items)
    unfolding upload_bin
    upload_bin-AllCarried results batch dropped items size fits =
        let start : Upload = empty_upload results batch in
        let nothing : Uploads start [] = record {
          before = [];
          open_run = [];
          parts = refl;
          carried = refl;
          held = record { size = size; len_is = refl; bytes_are = refl };
          room = omega (arith, large);
        } in
        let all =
          put_items-Uploads items (append_batch start dropped) (dropped ∷ [])
            (append_batch-Uploads start [] dropped nothing (omega (arith, fits))) in
        let u = put_items batch_size sync (append_batch start dropped) items in
        if_cases (λ (w : Upload). AllCarried w.sent (dropped ∷ items)) (ltb 0 u.len)
          (λ some_open.
            let closed = close_batch-Uploads u (dropped ∷ items) all in
            Uploads-AllCarried (close_batch batch_size sync u) (dropped ∷ items) closed.0 closed.1)
          (λ none_open. Uploads-AllCarried u (dropped ∷ items) all (ground (arith, none_open)))
