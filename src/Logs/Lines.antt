-- ===== src/Logs/Lines.antt =====
-- What the upload task publishes of the text lines, and what the text hook stores of a line.
use esp_soulcloud_client.Prelude.{
  ℕ, zero, suc, ◌≤◌, ◌<◌, ◌+◌, ◌-◌, ◌^◌, List, [], ◌∷◌, ◌++◌, ◌≡◌, refl, sym, ap, subst, ◌∙◌, ◌⊎◌,
  inl, inr, Bytes, codes, length, take, get_or, ltb, if_cases, Bool-cases, append-nil, append_assoc,
  length-append, length-set, arith,
}
use esp_soulcloud_client.Json.Decimal.{decimal}
use esp_soulcloud_client.Json.Numbers.{length-decimal}
use esp_soulcloud_client.Prelude.Memory.{take-set_ge, get_or-set_self}
use esp_soulcloud_client.Esp.{EspErr}
use esp_soulcloud_client.Logs.{
  Upload, empty_upload, publish_batch, append_batch, put_line, put_lines, upload_text, text_item,
  dropped_line,
}
use esp_soulcloud_client.Logs.Batches.{
  concat, concat-snoc, length_zero, Holding, append_batch-Holding,
}

module _ (batch_size : ℕ) where
  -- The messages, the newest first, carry the lines: each is a run of whole lines, in the size of a batch.
  abbrev pub CarriesLines : List Bytes → List Bytes → Type 0
  CarriesLines [] lines = lines ≡ []
  CarriesLines (m ∷ ms) lines =
      (before : List Bytes) × (run : List Bytes) × (lines ≡ before ++ run)
      × (m ≡ concat run)
      × (length m ≤ batch_size)
      × CarriesLines ms before

  record UploadsLines (u : Upload) (lines : List Bytes) : Type 0 where
    before : List Bytes
    open_run : List Bytes
    parts : lines ≡ before ++ open_run
    carried : CarriesLines u.sent before
    held : Holding batch_size u (concat open_run)
    room : length (concat open_run) ≤ batch_size

  publish_batch-UploadsLines :
      (u : Upload) (lines : List Bytes)
      → UploadsLines u lines
      → UploadsLines (publish_batch u) lines × ((publish_batch u).len ≡ 0)
  publish_batch-UploadsLines u lines h =
      let m = ap length h.held.bytes_are in
      (
        record {
          before = lines;
          open_run = [];
          parts = sym (append-nil lines);
          carried = (
            h.before,
            h.open_run,
            h.parts,
            h.held.bytes_are,
            omega (arith, m, h.room),
            h.carried,
          );
          held = record { size = h.held.size; len_is = refl; bytes_are = refl };
          room = omega arith;
        },
        refl,
      )

  append_batch-UploadsLines :
      (u : Upload) (lines : List Bytes) (line : Bytes)
      → UploadsLines u lines
      → u.len + length line ≤ batch_size
      → UploadsLines (append_batch u line) (lines ++ line ∷ [])
  append_batch-UploadsLines u lines line h fits =
      let c = concat-snoc h.open_run line in
      let n = length-append (concat h.open_run) line in
      let k = ap length c in
      record {
        before = h.before;
        open_run = h.open_run ++ line ∷ [];
        parts = ap (λ t. t ++ line ∷ []) h.parts ∙ append_assoc h.before h.open_run (line ∷ []);
        carried = h.carried;
        held =
            subst (λ t. Holding batch_size (append_batch u line) t) (sym c)
              (append_batch-Holding batch_size u (concat h.open_run) line h.held
                (omega (arith, fits, h.held.len_is)));
        room = omega (arith, n, k, fits, h.held.len_is);
      }

  put_line-UploadsLines :
      (u : Upload) (lines : List Bytes) (line : Bytes)
      → UploadsLines u lines
      → length line ≤ batch_size
      → UploadsLines (put_line batch_size u line) (lines ++ line ∷ [])
  unfolding put_line
  put_line-UploadsLines u lines line h short =
      elim (Bool-cases (ltb batch_size (u.len + length line))) [
        | inl full ↦
            (let closed = publish_batch-UploadsLines u lines h in
              rw full (
                append_batch-UploadsLines (publish_batch u) lines line closed.0
                  (omega (arith, short))))
        | inr room ↦ rw room (append_batch-UploadsLines u lines line h (ground (arith, room)))
      ]

  abbrev pub AllShort : List Bytes → Type 0
  AllShort [] = Unit
  AllShort (line ∷ lines) = (length line ≤ batch_size) × AllShort lines

  put_lines-UploadsLines :
      (more : List Bytes) (u : Upload) (lines : List Bytes)
      → UploadsLines u lines
      → AllShort more
      → UploadsLines (put_lines batch_size u more) (lines ++ more)
  unfolding put_lines
  put_lines-UploadsLines [] u lines h short =
      subst (λ t. UploadsLines u t) (sym (append-nil lines)) h
  put_lines-UploadsLines (line ∷ more) u lines h short =
      subst (λ t. UploadsLines (put_lines batch_size (put_line batch_size u line) more) t)
        (append_assoc lines (line ∷ []) more)
        (put_lines-UploadsLines more (put_line batch_size u line) (lines ++ line ∷ [])
          (put_line-UploadsLines u lines line h short.0) short.1)

  abbrev pub AllLines : List Bytes → List Bytes → Type 0
  AllLines sent lines =
      (carried : List Bytes) × (rest : List Bytes) × (lines ≡ carried ++ rest)
      × (concat rest ≡ [])
      × CarriesLines sent carried

  UploadsLines-AllLines :
      (u : Upload) (lines : List Bytes) → UploadsLines u lines → u.len ≡ 0 → AllLines u.sent lines
  UploadsLines-AllLines u lines h none_open = (
    h.before,
    h.open_run,
    h.parts,
    length_zero (concat h.open_run) (omega (arith, h.held.len_is, none_open)),
    h.carried,
  )

  -- Where the note of dropped lines and every line of the ring is at most a batch long: `upload_text` gives
  -- the note and then every line to `publish`, each once and in that order, but for empty ones at the
  -- end, and whatever `publish` returns. Each message is a run of whole lines that is at most a batch long.
  pub upload_text-AllLines :
      (results : ℕ → EspErr) (batch dropped : Bytes) (lines : List Bytes)
      → length batch ≡ batch_size
      → length dropped ≤ batch_size
      → AllShort lines
      → AllLines (upload_text batch_size results batch dropped lines).sent (dropped ∷ lines)
  unfolding upload_text
  upload_text-AllLines results batch dropped lines size fits short =
      let start : Upload = empty_upload results batch in
      let nothing : UploadsLines start [] = record {
        before = [];
        open_run = [];
        parts = refl;
        carried = refl;
        held = record { size = size; len_is = refl; bytes_are = refl };
        room = omega arith;
      } in
      let all =
        put_lines-UploadsLines lines (append_batch start dropped) (dropped ∷ [])
          (append_batch-UploadsLines start [] dropped nothing (omega (arith, fits))) short in
      let u = put_lines batch_size (append_batch start dropped) lines in
      if_cases (λ (w : Upload). AllLines w.sent (dropped ∷ lines)) (ltb 0 u.len)
        (λ some_open.
          let closed = publish_batch-UploadsLines u (dropped ∷ lines) all in
          UploadsLines-AllLines (publish_batch u) (dropped ∷ lines) closed.0 closed.1)
        (λ none_open. UploadsLines-AllLines u (dropped ∷ lines) all (ground (arith, none_open)))

  -- The note of dropped lines fits every batch size that the configuration allows.
  pub dropped_line-fits :
      (ms dropped : ℕ)
      → ms < 2 ^ 63
      → dropped < 2 ^ 32
      → 512 ≤ batch_size
      → length (dropped_line batch_size ms dropped) ≤ batch_size
  unfolding dropped_line
  dropped_line-fits ms dropped ms_small dropped_small large =
      if_cases (λ (l : Bytes). length l ≤ batch_size) (ltb 0 dropped)
        (λ some_lost.
          let a = length-decimal ms (omega (arith, ms_small)) in
          let b = length-decimal dropped (omega (arith, dropped_small)) in
          let c =
            length-append (decimal ms)
              (codes ") soulcloud: " ++ (decimal dropped ++ codes " log lines dropped\n")) in
          let d = length-append (decimal dropped) (codes " log lines dropped\n") in
          omega (arith, a, b, c, d, large))
        (λ none_lost. omega (arith, large))

length-take_le : (n : ℕ) (xs : Bytes) → length (take n xs) ≤ n
length-take_le zero xs = omega arith
length-take_le (suc n) [] = omega arith
length-take_le (suc n) (x ∷ xs) = let rest = length-take_le n xs in omega (arith, rest)

length-take_min : (n : ℕ) (xs : Bytes) → n ≤ length xs → length (take n xs) ≡ n
length-take_min zero xs h = refl
length-take_min (suc n) [] h = absurd (omega (arith, h))
length-take_min (suc n) (x ∷ xs) h = ap suc (length-take_min n xs (omega (arith, h)))

take-take : (n m : ℕ) (xs : Bytes) → n ≤ m → take n (take m xs) ≡ take n xs
take-take zero m xs h = refl
take-take (suc n) zero xs h = absurd (omega (arith, h))
take-take (suc n) (suc m) [] h = refl
take-take (suc n) (suc m) (x ∷ xs) h = ap (◌∷◌ x) (take-take n m xs (omega (arith, h)))

-- What the text hook stores of a formatted text is shorter than the line buffer. It is the text itself
-- where that fits, and otherwise starts with the text up to two bytes less than the buffer and ends with
-- a line feed.
pub text_item-cut :
    (line_max : ℕ) (text : Bytes)
    → 2 ≤ line_max
    → (length (text_item line_max text) < line_max)
      × ((text_item line_max text ≡ text)
          ⊎ (line_max ≤ length text)
            × (take (line_max - 2) (text_item line_max text) ≡ take (line_max - 2) text)
            × (get_or (text_item line_max text) (line_max - 2) 0 ≡ 10))
unfolding text_item
text_item-cut line_max text large = elim (Bool-cases (ltb (length text) line_max)) [
  | inl short ↦ rw short (ground (arith, short), inl refl)
  | inr long ↦
      (let kept = take (line_max - 1) text in
        let n = length-take_min (line_max - 1) text (ground (arith, long)) in
        let same : line_max - 1 - 1 ≡ line_max - 2 = omega arith in
        let size = length-set kept (line_max - 2) 10 in
        rw (long, same)
          (
            omega (arith, n, size, large),
            inr (
              ground (arith, long),
              take-set_ge (line_max - 2) (line_max - 2) 10 kept (omega arith)
                  ∙ take-take (line_max - 2) (line_max - 1) text (omega arith),
              get_or-set_self kept (line_max - 2) 10 0 (omega (arith, n, large)),
            ),
          ))
]
