-- ===== src/Json/Shows/Put.antt =====
-- The writer shows a page: the buffer holds the page's text where it fits, and otherwise a part
-- of it from the start, with `overflow` set.
use esp_soulcloud_client.Prelude.{
  ℕ, ◌+◌, ◌≤◌, ◌<◌, [], ◌∷◌, ◌++◌, ◌≡◌, refl, sym, ap, ◌∙◌, ◌⊎◌, inl, inr, true, false, ◌||◌, Bytes,
  length, set, take, get_or, copy_at, leb, append_assoc, append-nil, length-append, length-set,
  Bool-cases, arith,
}
use esp_soulcloud_client.Prelude.Memory.{take-set-copy_at, length-copy_at, get_or-set_self}
use esp_soulcloud_client.Json.Page.{Page, emit}
use esp_soulcloud_client.Json.Writer.{Writer, text, put, put_char}

abbrev pub IsExact : Writer → Page → Type 0
IsExact w a =
    (w.overflow ≡ false)
    × (a.broken ≡ false)
    × (length a.text < w.cap)
    × (w.pos ≡ length a.text)
    × (text w ≡ a.text)

abbrev pub IsCut : Writer → Page → Type 0
IsCut w a = (w.overflow ≡ true) × ((a.broken ≡ true) ⊎ (w.cap ≤ length a.text))

pub record Shows (n : ℕ) (w : Writer) (a : Page) : Type 0 where
  pub same_cap : w.cap ≡ n
  pub size : length w.buf ≡ n
  pub bounded : w.pos < n
  pub terminated : get_or w.buf w.pos 1 ≡ 0
  pub same_depth : w.depth ≡ a.depth
  pub same_items : w.has_items ≡ a.has_items
  pub prefix : (rest : Bytes) × (a.text ≡ text w ++ rest)
  pub state : IsExact w a ⊎ IsCut w a

pub put_char-eq-put : (w : Writer) (c : ℕ) → put_char w c ≡ put w (c ∷ [])
unfolding put_char put
put_char-eq-put w c = refl

pub Shows-cut :
    {n : ℕ} {w : Writer} {a : Page} (s : Bytes)
    → Shows n w a
    → w.overflow ≡ true
    → Shows n w (emit a s)
Shows-cut {n} {w} {a} s h e = record {
  same_cap = h.same_cap;
  size = h.size;
  bounded = h.bounded;
  terminated = h.terminated;
  same_depth = h.same_depth;
  same_items = h.same_items;
  prefix = (h.prefix.0 ++ s, rw (h.prefix.1) (append_assoc (text w) h.prefix.0 s));
  state = inr (e, ground (arith, h.state, length-append a.text s));
}

-- A call that sets `overflow` on a page that is cut, or too long for the buffer.
pub Shows-stop :
    {n : ℕ} {w : Writer} {a : Page} (b : Page)
    → Shows n w a
    → (b.depth ≡ a.depth)
    → (b.has_items ≡ a.has_items)
    → ((rest : Bytes) × (b.text ≡ text w ++ rest))
    → ((b.broken ≡ true) ⊎ (w.cap ≤ length b.text))
    → Shows n (record w { overflow = true }) b
Shows-stop b h d i p c = record {
  same_cap = h.same_cap;
  size = h.size;
  bounded = h.bounded;
  terminated = h.terminated;
  same_depth = h.same_depth ∙ sym d;
  same_items = h.same_items ∙ sym i;
  prefix = p;
  state = inr (refl, c);
}

pub prefix-emit :
    {n : ℕ} {w : Writer} {a : Page} (s : Bytes)
    → Shows n w a
    → (rest : Bytes) × ((emit a s).text ≡ text w ++ rest)
prefix-emit {n} {w} {a} s h =
    (h.prefix.0 ++ s, rw (h.prefix.1) (append_assoc (text w) h.prefix.0 s))

fit_test :
    (w : Writer) (s : Bytes)
    → w.overflow ≡ false
    → w.pos + length s < w.cap
    → (w.overflow || leb w.cap (w.pos + length s)) ≡ false
fit_test w s e h = ground arith

Shows-put_fit :
    {n : ℕ} {w : Writer} {a : Page} (s : Bytes)
    → Shows n w a
    → IsExact w a
    → w.pos + length s < w.cap
    → Shows n (put w s) (emit a s)
unfolding put
Shows-put_fit {n} {w} {a} s h x lt =
    let written : take (w.pos + length s) (set (copy_at w.buf w.pos s) (w.pos + length s) 0)
        ≡ a.text ++ s =
      take-set-copy_at s w.buf w.pos (w.pos + length s) refl (omega (arith, h.size, h.same_cap))
      ∙ ap (λ t. t ++ s) x.4 in
    let size =
      length-set (copy_at w.buf w.pos s) (w.pos + length s) 0
      ∙ length-copy_at s w.buf w.pos
      ∙ h.size in
    rw (fit_test w s x.0 lt) (record {
      same_cap = h.same_cap;
      size = size;
      bounded = omega (arith, h.same_cap);
      terminated =
          get_or-set_self (copy_at w.buf w.pos s) (w.pos + length s) 0 1
            (omega (arith, length-copy_at s w.buf w.pos, h.size));
      same_depth = h.same_depth;
      same_items = h.same_items;
      prefix = ([], sym (append-nil _ ∙ written));
      state = inl (
        x.0,
        x.1,
        omega (arith, length-append a.text s),
        omega (arith, length-append a.text s),
        written,
      );
    })

pub Shows-put :
    {n : ℕ} {w : Writer} {a : Page} (s : Bytes) → Shows n w a → Shows n (put w s) (emit a s)
unfolding put
Shows-put {n} {w} {a} s h = elim h.state [
  | inl x ↦ elim (Bool-cases (leb w.cap (w.pos + length s))) [
    | inl full ↦
        rw (x.0, full)
          (Shows-stop (emit a s) h refl refl (prefix-emit s h)
            (inr (ground (arith, length-append a.text s))))
    | inr fits ↦ Shows-put_fit s h x (ground arith)
  ]
  | inr x ↦
      rw x.0 (
        Shows-stop (emit a s) h refl refl (prefix-emit s h)
          (ground (arith, length-append a.text s)))
]
