-- ===== src/Rpc/Methods.antt =====
-- The method table of `sc_rpc`: `add_method` and `find_method` (src/sc_rpc.cpp lines 52 to 76). The
-- handlers are the type `H`.
use esp_soulcloud_client.Prelude.{
  List, [], ◌∷◌, ◌≡◌, refl, sym, ap, ◌∙◌, true, false, Option, none, some, Bytes, equal, equal_iff,
  if◌then◌else◌, inl, inr, Bool-cases, Option-cases, arith,
}
use esp_soulcloud_client.Esp.{EspErr}

module _ (H : Type 0) where
  -- `method_entry`, with a name: an entry without one is free.
  pub record MethodEntry : Type 0 where
    pub name : Bytes
    pub handler : H

  -- The loop of `add_method`; `none` where every entry is taken by another name.
  unfoldable pub put_method :
      MethodEntry → List (Option MethodEntry) → Option (List (Option MethodEntry))
  put_method e [] = none
  put_method e (none ∷ methods) = some (some e ∷ methods)
  put_method e (some m ∷ methods) =
      let rest = put_method e methods in
      if equal m.name e.name
      then some (some e ∷ methods)
      else elim rest [ none ↦ none | some methods' ↦ some (some m ∷ methods') ]

  -- A null name is `none`, and so is a handler that is not there.
  unfoldable pub add_method :
      Option Bytes → Option H → List (Option MethodEntry) → EspErr × List (Option MethodEntry)
  add_method none handler methods = (EspErr.invalid_arg, methods)
  add_method (some name) none methods = (EspErr.invalid_arg, methods)
  add_method (some name) (some handler) methods =
      elim (put_method (record { name = name; handler = handler }) methods) [
        | none ↦ (EspErr.no_mem, methods)
        | some methods' ↦ (EspErr.esp_ok, methods')
      ]

  unfoldable pub find_method : Bytes → List (Option MethodEntry) → Option MethodEntry
  find_method name [] = none
  find_method name (none ∷ methods) = find_method name methods
  find_method name (some m ∷ methods) =
      let rest = find_method name methods in if equal m.name name then some m else rest

  same_name :
      (m e : MethodEntry) (name : Bytes) (rest : Option MethodEntry)
      → equal m.name e.name ≡ true
      → (if equal e.name name then some e else rest)
        ≡ (if equal e.name name then some e else if equal m.name name then some m else rest)
  same_name m e name rest q = elim (Bool-cases (equal e.name name)) [
    | inl here ↦ rw here refl
    | inr elsewhere ↦
        (let n = ap (λ x. equal x name) ((equal_iff m.name e.name).0 q) ∙ elsewhere in
          rw (elsewhere, n) refl)
  ]

  other_name :
      (m e : MethodEntry) (name : Bytes)
      → equal m.name e.name ≡ false
      → equal m.name name ≡ true
      → equal e.name name ≡ false
  other_name m e name q here = elim (Bool-cases (equal e.name name)) [
    | inl too ↦
        (let both = (equal_iff m.name name).0 here ∙ sym ((equal_iff e.name name).0 too) in
          absurd (ground (arith, q, (equal_iff m.name e.name).1 both)))
    | inr elsewhere ↦ elsewhere
  ]

  put_method-find :
      (methods methods' : List (Option MethodEntry)) (e : MethodEntry) (name : Bytes)
      → put_method e methods ≡ some methods'
      → find_method name methods' ≡ (if equal e.name name then some e else find_method name methods)
  unfolding put_method find_method
  put_method-find [] methods' e name h = absurd (ground (arith, h))
  put_method-find (none ∷ methods) methods' e name h =
      let same : some e ∷ methods ≡ methods' = cc in rw⁻¹ same refl
  put_method-find (some m ∷ methods) methods' e name h = elim (Bool-cases (equal m.name e.name)) [
    | inl q ↦
        (let same : some e ∷ methods ≡ methods' = ground (arith, q, h) in
          rw⁻¹ same (same_name m e name (find_method name methods) q))
    | inr q ↦ elim (Option-cases (put_method e methods)) [
      | inl f ↦ absurd (ground (arith, q, h, f))
      | inr (rest, f) ↦
          (let same : some m ∷ rest ≡ methods' = ground (arith, q, h, f) in
            let behind = put_method-find methods rest e name f in
            rw⁻¹ same (elim (Bool-cases (equal m.name name)) [
              | inl here ↦ rw (here, other_name m e name q here) refl
              | inr elsewhere ↦ rw elsewhere behind
            ]))
    ]
  ]

  -- Where a method is added with success, a search for its name finds the new handler, and a search
  -- for any other name finds what it found before.
  pub add_method-find_method :
      (name key : Bytes) (handler : H) (methods : List (Option MethodEntry))
      → (add_method (some name) (some handler) methods).0 ≡ EspErr.esp_ok
      → find_method key ((add_method (some name) (some handler) methods).1) ≡ (
          if equal name key
          then some (record { name = name; handler = handler })
          else find_method key methods)
  unfolding add_method
  add_method-find_method name key handler methods h =
      elim (Option-cases (put_method (record { name = name; handler = handler }) methods)) [
        | inl f ↦ absurd (ground (arith, f, h))
        | inr (methods', f) ↦
            rw (f, add_method)
              (put_method-find methods methods' (record { name = name; handler = handler }) key f)
      ]
