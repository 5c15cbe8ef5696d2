-- ===== src/Json/Shows/Contract.antt =====
-- What a caller of `sc_json_writer` may rely on, after any chain of calls.
use esp_soulcloud_client.Prelude.{
  ℕ, ◌<◌, [], ◌∷◌, ◌++◌, List, ◌≡◌, refl, ◌∙◌, ◌↔◌, inl, true, false, some, Bytes, length, get_or,
  ltb, length-set, arith,
}
use esp_soulcloud_client.Json.Page.{Page, blank}
use esp_soulcloud_client.Json.Page
use esp_soulcloud_client.Json.Shows.Calls.{Shows-run}
use esp_soulcloud_client.Json.Shows.Put.{Shows}
use esp_soulcloud_client.Json.Writer.{Writer, Op, create, is_ok, text}
use esp_soulcloud_client.Json.Writer

pub Shows-create :
    (buf : Bytes) {cap : ℕ} → length buf ≡ cap → 0 < cap → Shows cap (create (some buf) cap) blank
unfolding create Writer.reset
Shows-create (c ∷ buf) {cap} e h =
    let room : ltb cap 1 ≡ false = ground arith in
    rw room (record {
      same_cap = refl;
      size = length-set (c ∷ buf) 0 0 ∙ e;
      bounded = h;
      terminated = refl;
      same_depth = refl;
      same_items = refl;
      prefix = ([], refl);
      state = inl (refl, refl, h, refl, refl);
    })
Shows-create [] e h = absurd (omega arith)

module _ (buf : Bytes) (cap : ℕ) (ops : List Op) (size : length buf ≡ cap) (room : 0 < cap) where
  pub shown : Shows cap (Writer.run (create (some buf) cap) ops) (Page.run blank ops)
  shown = Shows-run ops (Shows-create buf size room)

  -- For a buffer of `cap` bytes, one at least, and any chain of calls: `ok()` holds exactly when no
  -- container was nested too deep, no format failed, and the text that the calls write to a page
  -- without end is shorter than the buffer.
  pub run-is_ok :
      (is_ok (Writer.run (create (some buf) cap) ops) ≡ true)
      ↔ (((Page.run blank ops).broken ≡ false) × (length (Page.run blank ops).text < cap))
  run-is_ok = (
    λ e. ground (arith, shown.state, shown.same_cap),
    λ p. ground (arith, shown.state, shown.same_cap),
  )

  -- For a buffer of `cap` bytes, one at least, and any chain of calls, where `ok()` holds at the end:
  -- the buffer's text and `len()` are the text that the calls write to a page without end, and its
  -- length.
  pub run-text :
      is_ok (Writer.run (create (some buf) cap) ops) ≡ true
      → (text (Writer.run (create (some buf) cap) ops) ≡ (Page.run blank ops).text)
        × ((Writer.run (create (some buf) cap) ops).pos ≡ length (Page.run blank ops).text)
  run-text e =
      (ground (arith, shown.state, shown.same_cap), ground (arith, shown.state, shown.same_cap))

  -- For a buffer of `cap` bytes, one at least, and any chain of calls: the buffer keeps its size,
  -- the text ends inside it with a NUL, and the text is a part, from the start, of what the calls
  -- write to a page without end.
  pub run-IsSafe :
      (length (Writer.run (create (some buf) cap) ops).buf ≡ cap)
      × ((Writer.run (create (some buf) cap) ops).pos < cap)
      × (get_or
            (Writer.run (create (some buf) cap) ops).buf
            (Writer.run (create (some buf) cap) ops).pos
            1
          ≡ 0)
      × ((rest : Bytes) × ((Page.run blank ops).text
            ≡ text (Writer.run (create (some buf) cap) ops) ++ rest))
  run-IsSafe = (shown.size, shown.bounded, shown.terminated, shown.prefix)
