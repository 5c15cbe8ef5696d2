-- ===== src/Json/Written.antt =====
-- Writing a value: the calls of `ops_of` add the compact text of the value to the page, behind a
-- comma where one is due, and leave the nesting as it was.
use esp_soulcloud_client.Prelude.{
  ℕ, ◌+◌, ◌-◌, ◌≤◌, ◌<◌, [], ◌∷◌, ◌++◌, List, ◌≡◌, refl, sym, ap, subst, ◌∙◌, inl, inr, Bool, true,
  false, not, Option, none, some, Bytes, ltb, leb, append_assoc, append-nil, Bool-cases, arith,
}
use esp_soulcloud_client.Json.Page.{
  Page, blank, emit, start_item, start_value, write_key, enter, leave, quoted, open_container, run,
  apply,
}
use esp_soulcloud_client.Json.Value.{
  Value, null, bool, int, uint, str, hex, arr, obj, Items, nil, cons, Fields, end, field, comma,
  print, print_items, print_fields, ops_of, ops_of_items, ops_of_fields, height, height_items,
  height_fields,
}
use esp_soulcloud_client.Json.Writer.{Op, ends_object, ends_array, set_bit, max_depth}

-- `b` is `a` with `s` written on, at the same nesting and with the same bits up to its depth.
record Kept (a : Page) (s : Bytes) (b : Page) : Type 0 where
  text_is : b.text ≡ a.text ++ s
  broken_is : b.broken ≡ a.broken
  depth_is : b.depth ≡ a.depth
  bits : (k : ℕ) → k ≤ a.depth → b.has_items k ≡ a.has_items k

-- The same below the container in hand, whose own bit is `used`.
record Filled (a : Page) (s : Bytes) (used : Bool) (b : Page) : Type 0 where
  text_is : b.text ≡ a.text ++ s
  broken_is : b.broken ≡ a.broken
  depth_is : b.depth ≡ a.depth
  used_is : b.has_items b.depth ≡ used
  bits : (k : ℕ) → k < a.depth → b.has_items k ≡ a.has_items k

run-append : (a : Page) (xs ys : List Op) → run a (xs ++ ys) ≡ run (run a xs) ys
unfolding run
run-append a [] ys = refl
run-append a (x ∷ xs) ys = run-append (apply a x) xs ys

Filled-trans :
    {a b c : Page} {u v : Bool} (s t : Bytes)
    → Filled a s u b
    → Filled b t v c
    → Filled a (s ++ t) v c
Filled-trans {a} {b} {c} s t h k = record {
  text_is = k.text_is ∙ ap (λ x. x ++ t) h.text_is ∙ append_assoc a.text s t;
  broken_is = k.broken_is ∙ h.broken_is;
  depth_is = k.depth_is ∙ h.depth_is;
  used_is = k.used_is;
  bits = λ i lt. k.bits i (omega (arith, h.depth_is)) ∙ h.bits i lt;
}

Filled-Kept :
    {a b c : Page} {u : Bool} (s t : Bytes) → Filled a s u b → Kept b t c → Filled a (s ++ t) u c
Filled-Kept {a} {b} {c} s t h k = Filled-trans s t h (record {
  text_is = k.text_is;
  broken_is = k.broken_is;
  depth_is = k.depth_is;
  used_is = ap c.has_items k.depth_is ∙ k.bits b.depth (omega arith) ∙ h.used_is;
  bits = λ i lt. k.bits i (omega arith);
})

abbrev key_text : Option Bytes → Bytes
key_text none = []
key_text (some key) = quoted key ++ b':' ∷ []

start_item-Filled :
    (a : Page) → 0 < a.depth → Filled a (comma (not (a.has_items a.depth))) true (start_item a)
unfolding set_bit
start_item-Filled a h =
    let inside : ltb 0 a.depth ≡ true = ground arith in
    rw inside (record {
      text_is = elim (Bool-cases (a.has_items a.depth)) [
        | inl e ↦ rw e
        | inr e ↦ rw e (sym (append-nil a.text))
      ];
      broken_is = refl;
      depth_is = refl;
      used_is = ground arith;
      bits = λ k lt. ground arith;
    })

write_key-Kept : (a : Page) (key : Option Bytes) → Kept a (key_text key) (write_key a key)
write_key-Kept a none = record {
  text_is = sym (append-nil a.text);
  broken_is = refl;
  depth_is = refl;
  bits = λ k h. refl;
}
write_key-Kept a (some key) = record {
  text_is = refl;
  broken_is = refl;
  depth_is = refl;
  bits = λ k h. refl;
}

-- The comma and the key of a value, inside a container.
start_value-Filled :
    (a : Page) (key : Option Bytes)
    → 0 < a.depth
    → Filled a (comma (not (a.has_items a.depth)) ++ key_text key) true (start_value a key)
start_value-Filled a key h =
    Filled-Kept _ _ (start_item-Filled a h) (write_key-Kept (start_item a) key)

enter-Filled :
    (a : Page)
    → a.depth < 31
    → ((enter a).text ≡ a.text)
      × ((enter a).broken ≡ a.broken)
      × ((enter a).depth ≡ a.depth + 1)
      × ((enter a).has_items (a.depth + 1) ≡ false)
      × ((k : ℕ) → k ≤ a.depth → (enter a).has_items k ≡ a.has_items k)
unfolding set_bit
enter-Filled a h =
    let shallow : leb max_depth a.depth ≡ false = ground arith in
    rw shallow (refl, refl, refl, ground arith, λ k le. ground arith)

leave_text :
    (a : Page)
    → ((leave a).text ≡ a.text)
      × ((leave a).broken ≡ a.broken)
      × ((leave a).has_items ≡ a.has_items)
      × (0 < a.depth → (leave a).depth ≡ a.depth - 1)
leave_text a = ground arith

-- A container round a body that was written inside it.
container-Kept :
    (bracket closing : ℕ) (p b : Page) (s : Bytes) (used : Bool)
    → p.depth < 31
    → Filled (enter (emit p (bracket ∷ []))) s used b
    → Kept p (bracket ∷ (s ++ closing ∷ [])) (leave (emit b (closing ∷ [])))
container-Kept bracket closing p b s used lt h =
    let e = enter-Filled (emit p (bracket ∷ [])) lt in
    let l = leave_text (emit b (closing ∷ [])) in
    record {
      text_is =
          l.0 ∙ ap (λ x. x ++ closing ∷ []) (h.text_is ∙ ap (λ x. x ++ s) e.0) ∙ simp append_assoc;
      broken_is = l.1 ∙ h.broken_is ∙ e.1;
      depth_is = omega (arith, l.3, h.depth_is, e.2);
      bits = λ k le. ap (λ f. f k) l.2 ∙ h.bits k (omega (arith, e.2)) ∙ e.4 k le;
    }

abbrev used_items : Items → Bool → Bool
used_items nil u = u
used_items (cons x xs) u = true

abbrev used_fields : Fields → Bool → Bool
used_fields end u = u
used_fields (field k x fs) u = true

scalar-Kept : (p : Page) (s : Bytes) → Kept p s (emit p s)
scalar-Kept p s = record { text_is = refl; broken_is = refl; depth_is = refl; bits = λ k h. refl }

start_value-depth : (a : Page) (key : Option Bytes) → (start_value a key).depth ≡ a.depth
start_value-depth a none = ground arith
start_value-depth a (some key) = ground arith

-- An opened container holds no value yet.
opened :
    (a : Page) (key : Option Bytes) (bracket : ℕ)
    → a.depth < 31
    → (0 < (open_container bracket a key).depth)
      × ((open_container bracket a key).depth ≡ a.depth + 1)
      × (not ((open_container bracket a key).has_items (open_container bracket a key).depth) ≡ true)
opened a key bracket lt =
    let d = start_value-depth a key in
    let e = enter-Filled (emit (start_value a key) (bracket ∷ [])) (omega (arith, d)) in
    (omega (arith, e.2), omega (arith, e.2, d), rw e.2 (ap not e.3))

abbrev run_container : (a : Page) (key : Option Bytes) (bracket closing : ℕ) → List Op → Page
run_container a key bracket closing ops =
    leave (emit (run (open_container bracket a key) ops) (closing ∷ []))

run_array :
    (a : Page) (key : Option Bytes) (xs : Items)
    → run a (ops_of key (arr xs)) ≡ run_container a key b'[' b']' (ops_of_items xs)
unfolding run ops_of apply
run_array a key xs = run-append (open_container b'[' a key) (ops_of_items xs) (ends_array ∷ [])

run_object :
    (a : Page) (key : Option Bytes) (fs : Fields)
    → run a (ops_of key (obj fs)) ≡ run_container a key b'{' b'}' (ops_of_fields fs)
unfolding run ops_of apply
run_object a key fs = run-append (open_container b'{' a key) (ops_of_fields fs) (ends_object ∷ [])

nothing-Filled : (a : Page) → Filled a [] (a.has_items a.depth) a
nothing-Filled a = record {
  text_is = sym (append-nil a.text);
  broken_is = refl;
  depth_is = refl;
  used_is = refl;
  bits = λ k h. refl;
}

value-Filled :
    (v : Value) (a : Page) (key : Option Bytes)
    → 0 < a.depth
    → Kept (start_value a key) (print v) (run a (ops_of key v))
    → Filled a
        ((comma (not (a.has_items a.depth)) ++ key_text key) ++ print v)
        true
        (run a (ops_of key v))
value-Filled v a key pos h = Filled-Kept _ (print v) (start_value-Filled a key pos) h

-- The items behind the first one start with a comma.
extend-Filled :
    {a b c : Page} (sep key body : Bytes) (rest : Bool → Bytes) (used : Bool → Bool)
    → used true ≡ true
    → Filled a ((sep ++ key) ++ body) true b
    → Filled b (rest (not (b.has_items b.depth))) (used (b.has_items b.depth)) c
    → Filled a (sep ++ (key ++ (body ++ rest false))) true c
extend-Filled {a} {b} {c} sep key body rest used e h k =
    let k' = subst (λ g. Filled b (rest (not g)) (used g) c) h.used_is k in
    let joined = Filled-trans ((sep ++ key) ++ body) (rest false) h k' in
    let assoc : ((sep ++ key) ++ body) ++ rest false ≡ sep ++ (key ++ (body ++ rest false)) =
      append_assoc (sep ++ key) body (rest false) ∙ append_assoc sep key (body ++ rest false) in
    subst (λ t. Filled a t true c) assoc
      (subst (λ u. Filled a (((sep ++ key) ++ body) ++ rest false) u c) e joined)

used_items-true : (xs : Items) → used_items xs true ≡ true
used_items-true nil = refl
used_items-true (cons x xs) = refl

used_fields-true : (fs : Fields) → used_fields fs true ≡ true
used_fields-true end = refl
used_fields-true (field k x fs) = refl

mutual
  unfolding print ops_of height run apply

  value-Kept :
      (v : Value) (a : Page) (key : Option Bytes)
      → a.depth + height v ≤ 31
      → Kept (start_value a key) (print v) (run a (ops_of key v))
  value-Kept null a key h = scalar-Kept _ _
  value-Kept (bool b) a key h = scalar-Kept _ _
  value-Kept (int n) a key h = scalar-Kept _ _
  value-Kept (uint n) a key h = scalar-Kept _ _
  value-Kept (str s) a key h = scalar-Kept _ _
  value-Kept (hex s) a key h = scalar-Kept _ _
  value-Kept (arr xs) a key h =
      let o = open_container b'[' a key in
      let f = opened a key b'[' (omega arith) in
      rw (run_array a key xs) (
        container-Kept b'[' b']' (start_value a key) (run o (ops_of_items xs)) (print_items true xs)
          (used_items xs (o.has_items o.depth)) (omega (arith, start_value-depth a key))
          (subst
            (λ g.
              Filled o (print_items g xs) (used_items xs (o.has_items o.depth))
                (run o (ops_of_items xs)))
            f.2 (items-Filled xs o f.0 (omega (arith, f.1)))))
  value-Kept (obj fs) a key h =
      let o = open_container b'{' a key in
      let f = opened a key b'{' (omega arith) in
      rw (run_object a key fs) (
        container-Kept b'{' b'}' (start_value a key) (run o (ops_of_fields fs))
          (print_fields true fs) (used_fields fs (o.has_items o.depth))
          (omega (arith, start_value-depth a key))
          (subst
            (λ g.
              Filled o (print_fields g fs) (used_fields fs (o.has_items o.depth))
                (run o (ops_of_fields fs)))
            f.2 (fields-Filled fs o f.0 (omega (arith, f.1)))))

  items-Filled :
      (xs : Items) (a : Page)
      → 0 < a.depth
      → a.depth + height_items xs ≤ 31
      → Filled a
          (print_items (not (a.has_items a.depth)) xs)
          (used_items xs (a.has_items a.depth))
          (run a (ops_of_items xs))
  items-Filled nil a pos h = nothing-Filled a
  items-Filled (cons x xs) a pos h =
      let b = run a (ops_of none x) in
      let first = value-Filled x a none pos (value-Kept x a none (omega arith)) in
      rw (run-append a (ops_of none x) (ops_of_items xs)) (
        extend-Filled (comma (not (a.has_items a.depth))) [] (print x) (λ g. print_items g xs)
          (used_items xs) (used_items-true xs) first
          (items-Filled xs b (omega (arith, first.depth_is)) (omega (arith, first.depth_is))))

  fields-Filled :
      (fs : Fields) (a : Page)
      → 0 < a.depth
      → a.depth + height_fields fs ≤ 31
      → Filled a
          (print_fields (not (a.has_items a.depth)) fs)
          (used_fields fs (a.has_items a.depth))
          (run a (ops_of_fields fs))
  fields-Filled end a pos h = nothing-Filled a
  fields-Filled (field k x fs) a pos h =
      let b = run a (ops_of (some k) x) in
      let first = value-Filled x a (some k) pos (value-Kept x a (some k) (omega arith)) in
      rw (run-append a (ops_of (some k) x) (ops_of_fields fs)) (
        extend-Filled (comma (not (a.has_items a.depth))) (key_text (some k)) (print x)
          (λ g. print_fields g fs) (used_fields fs) (used_fields-true fs) first
          (fields-Filled fs b (omega (arith, first.depth_is)) (omega (arith, first.depth_is))))

-- Writing a value of at most 31 nested containers to a blank page leaves the compact text of the
-- value there, at depth 0 and with no fault.
pub run-print :
    (v : Value)
    → height v ≤ 31
    → ((run blank (ops_of none v)).text ≡ print v)
      × ((run blank (ops_of none v)).broken ≡ false)
      × ((run blank (ops_of none v)).depth ≡ 0)
run-print v h =
    let k = value-Kept v blank none (omega arith) in (k.text_is, k.broken_is, k.depth_is)
