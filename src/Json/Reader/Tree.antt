-- ===== src/Json/Reader/Tree.antt =====
-- Token arrays as trees. jsmn writes a value as its token, with the number of its children as the
-- size, and the tokens of the children behind it; an object's children are its keys, each with its
-- value as the one child.
use esp_soulcloud_client.Prelude.{
  ℕ, zero, suc, ◌+◌, ◌-◌, ◌<◌, List, [], ◌∷◌, ◌++◌, ◌≡◌, refl, ap, ◌∙◌, false, none, some, length,
  drop, get_elem?, ltb, leb, if◌then◌else◌, append_assoc, length-append, arith,
}
use native.Mathlib.Numerals.{add-one}
use esp_soulcloud_client.Json.Reader.{Reader, count, skip_loop, skip}
use esp_soulcloud_client.Json.Token.{Token, TokenType}

mutual
  pub data Node : Type 0 where
    node : TokenType → ℕ → ℕ → Forest → Node

  pub data Forest : Type 0 where
    leaf : Forest
    tree : Node → Forest → Forest

abbrev pub degree : Forest → ℕ
degree leaf = 0
degree (tree t f) = suc (degree f)

unfoldable mutual
  pub flatten : Node → List Token
  flatten (node type start stop kids) =
      record { type = type; start = start; stop = stop; size = degree kids } ∷ flatten_all kids

  pub flatten_all : Forest → List Token
  flatten_all leaf = []
  flatten_all (tree t f) = flatten t ++ flatten_all f

abbrev pub width : Node → ℕ
width t = length (flatten t)

abbrev pub width_all : Forest → ℕ
width_all f = length (flatten_all f)

pub get_elem?-drop :
    {A : Type 0} (xs : List A) (i : ℕ) {x : A} {rest : List A}
    → drop i xs ≡ x ∷ rest
    → get_elem? xs i ≡ some x
get_elem?-drop [] zero h = cc
get_elem?-drop [] (suc i) h = cc
get_elem?-drop (y ∷ xs) zero h = cc
get_elem?-drop (y ∷ xs) (suc i) h = get_elem?-drop xs i h

pub drop-suc :
    {A : Type 0} (xs : List A) (i : ℕ) {x : A} {rest : List A}
    → drop i xs ≡ x ∷ rest
    → drop (suc i) xs ≡ rest
drop-suc [] zero h = cc
drop-suc [] (suc i) h = cc
drop-suc (y ∷ xs) zero h = cc
drop-suc (y ∷ xs) (suc i) h = drop-suc xs i h

pub drop-append :
    {A : Type 0} (ys xs : List A) (i j : ℕ) {rest : List A}
    → drop i xs ≡ ys ++ rest
    → j ≡ i + length ys
    → drop j xs ≡ rest
drop-append [] xs i j h e = let e' : j ≡ i = omega arith in rw e' h
drop-append (y ∷ ys) xs i j h e = drop-append ys xs (suc i) j (drop-suc xs i h) (omega arith)

skip_loop_step :
    (tokens : List Token) (rounds pending idx next : ℕ) (t : Token) {rest : List Token}
    → drop idx tokens ≡ t ∷ rest
    → next ≡ t.size + pending
    → skip_loop tokens (suc rounds) (suc pending) idx ≡ skip_loop tokens rounds next (suc idx)
unfolding skip_loop
skip_loop_step tokens rounds pending idx next t h e =
    let n : suc pending + t.size - 1 ≡ next = omega arith in
    rw (get_elem?-drop tokens idx h, n, add-one) (ground arith)

skip_loop_done : (tokens : List Token) (rounds idx : ℕ) → skip_loop tokens rounds 0 idx ≡ idx
unfolding skip_loop
skip_loop_done tokens zero idx = refl
skip_loop_done tokens (suc rounds) idx = refl

-- The loop goes over a subtree, or over some siblings, and closes one item for each of them.
mutual
  unfolding flatten

  skip_loop-flatten :
      (t : Node) (tokens post : List Token) (total rounds pending idx next : ℕ)
      → drop idx tokens ≡ flatten t ++ post
      → total ≡ width t + rounds
      → next ≡ idx + width t
      → skip_loop tokens total (suc pending) idx ≡ skip_loop tokens rounds pending next
  skip_loop-flatten (node type start stop kids) tokens post total rounds pending idx next h e n =
      let total' : total ≡ suc (width_all kids + rounds) = omega arith in
      rw total' (
        skip_loop_step tokens (width_all kids + rounds) pending idx (degree kids + pending)
          (record { type = type; start = start; stop = stop; size = degree kids }) h refl
        ∙ skip_loop-flatten_all kids tokens post (width_all kids + rounds) rounds
            (degree kids + pending) pending (suc idx) next (drop-suc tokens idx h) refl refl
            (omega arith))

  skip_loop-flatten_all :
      (f : Forest) (tokens post : List Token) (total rounds items pending idx next : ℕ)
      → drop idx tokens ≡ flatten_all f ++ post
      → total ≡ width_all f + rounds
      → items ≡ degree f + pending
      → next ≡ idx + width_all f
      → skip_loop tokens total items idx ≡ skip_loop tokens rounds pending next
  skip_loop-flatten_all leaf tokens post total rounds items pending idx next h e p n =
      let t : total ≡ rounds = omega arith in
      let i : items ≡ pending = omega arith in let x : next ≡ idx = omega arith in rw (t, i, x)
  skip_loop-flatten_all (tree t f) tokens post total rounds items pending idx next h e p n =
      let h' = h ∙ append_assoc (flatten t) (flatten_all f) post in
      let i : items ≡ suc (degree f + pending) = omega arith in
      let sum = length-append (flatten t) (flatten_all f) in
      rw i (
        skip_loop-flatten t tokens (flatten_all f ++ post) total (width_all f + rounds)
          (degree f + pending) idx (idx + width t) h' (omega (arith, sum)) refl
        ∙ skip_loop-flatten_all f tokens post (width_all f + rounds) rounds (degree f + pending)
            pending (idx + width t) next
            (drop-append (flatten t) tokens idx (idx + width t) h' refl) refl refl
            (omega (arith, sum)))

pub length-drop_le :
    {A : Type 0} (xs : List A) (i : ℕ) (ys : List A)
    → 0 < length ys
    → drop i xs ≡ ys
    → length xs ≡ i + length ys
length-drop_le xs zero ys h e = omega (arith, ap length e)
length-drop_le [] (suc i) ys h e = absurd (omega (arith, ap length e))
length-drop_le (x ∷ xs) (suc i) ys h e = omega (arith, length-drop_le xs i ys h e)

pub width_pos : (t : Node) → 0 < width t
unfolding flatten
width_pos (node type start stop kids) = omega arith

-- Where the tokens of a value start at `tok`: `skip` gives the index behind the last of them, and
-- -1 where they are the last tokens of the document.
pub skip-flatten :
    (r : Reader) (t : Node) (post : List Token) (tok : ℕ)
    → drop tok r.tokens ≡ flatten t ++ post
    → skip r (some tok) ≡ (if ltb (tok + width t) (count r) then some (tok + width t) else none)
unfolding skip
skip-flatten r t post tok h =
    let n =
      length-drop_le r.tokens tok (flatten t ++ post)
        (omega (arith, length-append (flatten t) post, width_pos t)) h in
    let inside : leb (count r) tok ≡ false =
      ground (arith, length-append (flatten t) post, width_pos t) in
    let loop =
      skip_loop-flatten t r.tokens post (count r - tok) (length post) 0 tok (tok + width t) h
        (omega (arith, n, length-append (flatten t) post)) refl
      ∙ skip_loop_done r.tokens (length post) (tok + width t) in
    rw (inside, loop)
