-- ===== src/Json/Shows/Calls.antt =====
-- Every call of the writer's interface keeps the writer in step with the page.
use esp_soulcloud_client.Prelude.{
  ℕ, ◌/◌, ◌%◌, [], ◌∷◌, ◌++◌, List, ◌≡◌, refl, sym, ap, subst, inl, inr, Bool, if_cases, true,
  false, Option, none, some, Bytes, codes, ltb, leb, append-nil, Bool-cases, arith,
}
use esp_soulcloud_client.Json.Decimal.{hex_digit, decimal, signed_decimal}
use esp_soulcloud_client.Json.Page.{
  Page, emit, emit-emit, escape_byte, escape, quoted, hex_text, start_item, write_key, start_value,
  enter, leave, open_container, close_container, str_text, bool_text,
}
use esp_soulcloud_client.Json.Page
use esp_soulcloud_client.Json.Shows.Put.{Shows, Shows-put, Shows-cut, Shows-stop, put_char-eq-put}
use esp_soulcloud_client.Json.Writer.{
  Writer, put, put_char, put_escaped_byte, put_escaped_bytes, put_escaped, begin_item, put_key,
  begin_value, begin_container, end_container, begin_object, begin_array, end_object, end_array,
  put_hex_bytes, set_bit, add_null, add_str, add_str_len, add_fmt, add_int, add_uint, add_bool,
  add_hex, max_depth, Op, begins_object, begins_array, ends_object, ends_array, adds_str, adds_fmt,
  adds_int, adds_uint, adds_bool, adds_null, adds_hex,
}
use esp_soulcloud_client.Json.Writer

Shows-put_char :
    {n : ℕ} {w : Writer} {a : Page} (c : ℕ) → Shows n w a → Shows n (put_char w c) (emit a (c ∷ []))
Shows-put_char {n} {w} c h = rw (put_char-eq-put w c) (Shows-put (c ∷ []) h)

-- Joins two pieces that were written one behind the other.
Shows-join :
    {n : ℕ} {w : Writer} (a : Page) (s t : Bytes)
    → Shows n w (emit (emit a s) t)
    → Shows n w (emit a (s ++ t))
Shows-join {n} {w} a s t h = subst (Shows n w) (emit-emit a s t) h

put_escaped_byte-eq-put : (w : Writer) (c : ℕ) → put_escaped_byte w c ≡ put w (escape_byte c)
unfolding put_escaped_byte escape_byte
put_escaped_byte-eq-put w c = ground (arith, put_char-eq-put w c)

Shows-put_escaped_bytes :
    (s : Bytes) {n : ℕ} {w : Writer} {a : Page}
    → Shows n w a
    → Shows n (put_escaped_bytes w s) (emit a (escape s))
unfolding put_escaped_bytes escape
Shows-put_escaped_bytes [] {n} {w} {a} h =
    subst (Shows n w) (ap (λ t. record a { text = t }) (sym (append-nil a.text))) h
Shows-put_escaped_bytes (c ∷ cs) {n} {w} {a} h =
    if_cases (λ v. Shows n v (emit a (escape (c ∷ cs)))) w.overflow
      (λ full. Shows-cut (escape_byte c ++ escape cs) h full)
      (λ more. Shows-join a (escape_byte c) (escape cs) (
        Shows-put_escaped_bytes cs
          (rw (put_escaped_byte-eq-put w c) (Shows-put (escape_byte c) h))))

Shows-put_escaped :
    {n : ℕ} {w : Writer} {a : Page} (s : Bytes)
    → Shows n w a
    → Shows n (put_escaped w s) (emit a (quoted s))
unfolding put_escaped
Shows-put_escaped {n} {w} {a} s h = Shows-join a (b'"' ∷ []) (escape s ++ b'"' ∷ []) (
    Shows-join (emit a (b'"' ∷ [])) (escape s) (b'"' ∷ [])
      (Shows-put_char b'"' (Shows-put_escaped_bytes s (Shows-put_char b'"' h))))

Shows-put_hex_bytes :
    (s : Bytes) {n : ℕ} {w : Writer} {a : Page}
    → Shows n w a
    → Shows n (put_hex_bytes w s) (emit a (hex_text s))
unfolding put_hex_bytes hex_text
Shows-put_hex_bytes [] {n} {w} {a} h =
    subst (Shows n w) (ap (λ t. record a { text = t }) (sym (append-nil a.text))) h
Shows-put_hex_bytes (c ∷ cs) {n} {w} {a} h =
    if_cases (λ v. Shows n v (emit a (hex_text (c ∷ cs)))) w.overflow
      (λ full. Shows-cut (hex_digit (c / 16) ∷ hex_digit (c % 16) ∷ hex_text cs) h full)
      (λ more. Shows-join a (hex_digit (c / 16) ∷ []) (hex_digit (c % 16) ∷ hex_text cs) (
        Shows-join (emit a (hex_digit (c / 16) ∷ [])) (hex_digit (c % 16) ∷ []) (hex_text cs) (
          Shows-put_hex_bytes cs
            (Shows-put_char (hex_digit (c % 16)) (Shows-put_char (hex_digit (c / 16)) h)))))

-- The same change of the nesting on both sides.
Shows-nest :
    {n : ℕ} {w : Writer} {a : Page} {d e : ℕ} {f g : ℕ → Bool}
    → Shows n w a
    → d ≡ e
    → f ≡ g
    → Shows n (record w { depth = d; has_items = f }) (record a { depth = e; has_items = g })
Shows-nest h p q = record {
  same_cap = h.same_cap;
  size = h.size;
  bounded = h.bounded;
  terminated = h.terminated;
  same_depth = p;
  same_items = q;
  prefix = h.prefix;
  state = h.state;
}

Shows-mark :
    {n : ℕ} {w : Writer} {a : Page}
    → Shows n w a
    → Shows n
        (record w { has_items = set_bit w.has_items w.depth true })
        (record a { has_items = set_bit a.has_items a.depth true })
Shows-mark h = Shows-nest h h.same_depth (λ i. set_bit (h.same_items i) (h.same_depth i) true)

-- The page with the writer's nesting in place of its own, which is the same.
abbrev aligned : Writer → Page → Page
aligned w a = record a { depth = w.depth; has_items = w.has_items }

Shows-aligned :
    {n : ℕ} {w : Writer} {a : Page} (v : Writer) (f : Page → Page)
    → Shows n w a
    → (Shows n w (aligned w a) → Shows n v (f (aligned w a)))
    → Shows n v (f a)
Shows-aligned {n} {w} {a} v f h k =
    let same : a ≡ aligned w a =
      (λ i. record a { depth = sym h.same_depth i; has_items = sym h.same_items i }) in
    subst (λ x. Shows n v (f x)) (sym same) (k (subst (Shows n w) same h))

Shows-begin_item :
    {n : ℕ} {w : Writer} {a : Page} → Shows n w a → Shows n (begin_item w) (start_item a)
unfolding begin_item
Shows-begin_item {n} {w} {a} h = Shows-aligned (begin_item w) start_item h λ g.
    elim (Bool-cases (ltb 0 w.depth)) [
      | inr outside ↦ rw outside g
      | inl inside ↦ elim (Bool-cases (w.has_items w.depth)) [
        | inl later ↦ rw (inside, later) (Shows-mark (Shows-put_char b',' g))
        | inr first ↦ rw (inside, first) (Shows-mark g)
      ]
    ]

Shows-begin_value :
    {n : ℕ} {w : Writer} {a : Page} (key : Option Bytes)
    → Shows n w a
    → Shows n (begin_value w key) (start_value a key)
unfolding begin_value put_key
Shows-begin_value none h = Shows-begin_item h
Shows-begin_value {n} {w} {a} (some key) h =
    Shows-join (start_item a) (quoted key) (b':' ∷ [])
      (Shows-put_char b':' (Shows-put_escaped key (Shows-begin_item h)))

Shows-broken :
    {n : ℕ} {w : Writer} {a : Page}
    → Shows n w a
    → Shows n (record w { overflow = true }) (record a { broken = true })
Shows-broken {n} {w} {a} h = Shows-stop (record a { broken = true }) h refl refl h.prefix (inl refl)

Shows-begin_container :
    {n : ℕ} {w : Writer} {a : Page} (bracket : ℕ) (key : Option Bytes)
    → Shows n w a
    → Shows n (begin_container bracket w key) (open_container bracket a key)
unfolding begin_container
Shows-begin_container {n} {w} {a} bracket key h =
    let w' = put_char (begin_value w key) bracket in
    Shows-aligned (begin_container bracket w key) enter
      (Shows-put_char bracket (Shows-begin_value key h))
      λ g. elim (Bool-cases (leb max_depth w'.depth)) [
        | inl deep ↦ rw deep (Shows-broken g)
        | inr shallow ↦ rw shallow (Shows-nest g refl refl)
      ]

Shows-end_container :
    {n : ℕ} {w : Writer} {a : Page} (bracket : ℕ)
    → Shows n w a
    → Shows n (end_container bracket w) (close_container bracket a)
unfolding end_container
Shows-end_container {n} {w} {a} bracket h =
    let w' = put_char w bracket in
    Shows-aligned (end_container bracket w) leave (Shows-put_char bracket h) λ g.
      elim (Bool-cases (ltb 0 w'.depth)) [
        | inl inside ↦ rw inside (Shows-nest g refl refl)
        | inr outside ↦ rw outside g
      ]

Shows-put_value :
    {n : ℕ} {w : Writer} {a : Page} (key : Option Bytes) (s : Bytes)
    → Shows n w a
    → Shows n (put (begin_value w key) s) (emit (start_value a key) s)
Shows-put_value key s h = Shows-put s (Shows-begin_value key h)

Shows-add_hex :
    {n : ℕ} {w : Writer} {a : Page} (key : Option Bytes) (bytes : Bytes)
    → Shows n w a
    → Shows n
        (add_hex w key bytes)
        (emit (start_value a key) (b'"' ∷ (hex_text bytes ++ b'"' ∷ [])))
unfolding add_hex
Shows-add_hex {n} {w} {a} key bytes h =
    let start = start_value a key in
    Shows-join start (b'"' ∷ []) (hex_text bytes ++ b'"' ∷ []) (
      Shows-join (emit start (b'"' ∷ [])) (hex_text bytes) (b'"' ∷ []) (
        Shows-put_char b'"'
          (Shows-put_hex_bytes bytes (Shows-put_char b'"' (Shows-begin_value key h)))))

-- Each call of the interface.
pub Shows-apply :
    {n : ℕ} {w : Writer} {a : Page} (op : Op)
    → Shows n w a
    → Shows n (Writer.apply w op) (Page.apply a op)
unfolding Writer.apply Page.apply begin_object begin_array end_object end_array add_null add_str
    add_str_len add_fmt add_int add_uint add_bool
Shows-apply (begins_object key) h = Shows-begin_container b'{' key h
Shows-apply (begins_array key) h = Shows-begin_container b'[' key h
Shows-apply ends_object h = Shows-end_container b'}' h
Shows-apply ends_array h = Shows-end_container b']' h
Shows-apply (adds_str key none) h = Shows-put_value key (codes "null") h
Shows-apply (adds_str key (some value)) h = Shows-put_escaped value (Shows-begin_value key h)
Shows-apply (adds_fmt key none) h = Shows-broken h
Shows-apply (adds_fmt key (some text)) h = Shows-put_escaped _ (Shows-begin_value key h)
Shows-apply (adds_int key value) h = Shows-put_value key (signed_decimal value) h
Shows-apply (adds_uint key value) h = Shows-put_value key (decimal value) h
Shows-apply (adds_bool key true) h = Shows-put_value key (codes "true") h
Shows-apply (adds_bool key false) h = Shows-put_value key (codes "false") h
Shows-apply (adds_null key) h = Shows-put_value key (codes "null") h
Shows-apply (adds_hex key bytes) h = Shows-add_hex key bytes h

pub Shows-run :
    (ops : List Op) {n : ℕ} {w : Writer} {a : Page}
    → Shows n w a
    → Shows n (Writer.run w ops) (Page.run a ops)
unfolding Writer.run Page.run
Shows-run [] h = h
Shows-run (op ∷ ops) h = Shows-run ops (Shows-apply op h)
