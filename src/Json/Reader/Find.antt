-- ===== src/Json/Reader/Find.antt =====
-- `find` looks a key up in the members of an object.
use esp_soulcloud_client.Prelude.{
  ℕ, suc, ◌+◌, ◌<◌, List, [], ◌∷◌, ◌++◌, ◌≡◌, refl, ap, ◌∙◌, inl, inr, true, Option, none, some,
  Bytes, length, drop, get_elem?, equal, ltb, if◌then◌else◌, append-nil, append_assoc,
  length-append, Bool-cases, arith,
}
use native.Mathlib.Numerals.{add-one}
use esp_soulcloud_client.Json.Reader.{Reader, count, skip, find_loop, find, is_object, key_equals}
use esp_soulcloud_client.Json.Reader.Tree.{
  Node, node, Forest, leaf, tree, degree, flatten, flatten_all, width, drop-append, drop-suc,
  get_elem?-drop, skip-flatten, length-drop_le, width_pos,
}
use esp_soulcloud_client.Json.Token.{Token, object, string, slice}

-- A member: where its key starts and stops in the text, and its value.
pub record Member : Type 0 where
  pub key_start : ℕ
  pub key_stop : ℕ
  pub value : Node

abbrev pub members_forest : List Member → Forest
members_forest [] = leaf
members_forest (m ∷ ms) =
    tree (node string m.key_start m.key_stop (tree m.value leaf)) (members_forest ms)

-- The value of the first member with the key.
abbrev pub lookup : Bytes → Bytes → List Member → Option Node
lookup json key [] = none
lookup json key (m ∷ ms) =
    if equal (slice json m.key_start m.key_stop) key then some m.value else lookup json key ms

-- What `find` gives for the value that a lookup gives: -1 for none, and otherwise the index at which
-- the tokens of the value start.
abbrev pub Points : Reader → Option ℕ → Option Node → Type 0
Points r found none = found ≡ none
Points r found (some v) =
    (tok : ℕ) × (post : List Token) × (found ≡ some tok) × (drop tok r.tokens ≡ flatten v ++ post)

abbrev key_token : Member → Token
key_token m = record { type = string; start = m.key_start; stop = m.key_stop; size = 1 }

degree_members : (ms : List Member) → degree (members_forest ms) ≡ length ms
degree_members [] = refl
degree_members (m ∷ ms) = ap suc (degree_members ms)

find_loop_step :
    (r : Reader) (key : Bytes) (rounds member : ℕ) (m : Member)
    → get_elem? r.tokens member ≡ some (key_token m)
    → suc member < count r
    → find_loop r key (suc rounds) (some member) ≡ (
        if equal (slice r.json m.key_start m.key_stop) key
        then some (suc member)
        else find_loop r key rounds (skip r (some (suc member))))
unfolding find_loop key_equals
find_loop_step r key rounds member m e lt =
    let inside : ltb (suc member) (count r) ≡ true = ground arith in
    rw (e, find_loop) (rw add-one (rw inside (ground arith)))

-- Behind the last member of the document `skip` gives -1, and the loop is over.
find_loop-skip :
    (ms : List Member) (r : Reader) (key : Bytes) (next : ℕ) (post : List Token)
    → drop next r.tokens ≡ flatten_all (members_forest ms) ++ post
    → Points r (find_loop r key (length ms) (some next)) (lookup r.json key ms)
    → Points r
        (find_loop r key (length ms) (if ltb next (count r) then some next else none))
        (lookup r.json key ms)
unfolding flatten_all
find_loop-skip [] r key next post h ih = unfold find_loop in refl
find_loop-skip (m ∷ ms) r key next post h ih =
    let inside : ltb next (count r) ≡ true =
      ground (arith, length-drop_le r.tokens next _ (omega arith) h) in
    rw inside ih

find_loop-lookup :
    (ms : List Member) (r : Reader) (key : Bytes) (member : ℕ) (post : List Token)
    → drop member r.tokens ≡ flatten_all (members_forest ms) ++ post
    → Points r (find_loop r key (length ms) (some member)) (lookup r.json key ms)
unfolding flatten
find_loop-lookup [] r key member post h = unfold find_loop in refl
find_loop-lookup (m ∷ ms) r key member post h =
    let others = flatten_all (members_forest ms) ++ post in
    let behind : drop (suc member) r.tokens ≡ flatten m.value ++ others =
      drop-suc r.tokens member h ∙ simp (append-nil, append_assoc) in
    let next = suc member + width m.value in
    let rest : drop next r.tokens ≡ others =
      drop-append (flatten m.value) r.tokens (suc member) next behind refl in
    let ih = find_loop-lookup ms r key next post rest in
    let size =
      length-drop_le r.tokens (suc member) (flatten m.value ++ others)
        (omega (arith, length-append (flatten m.value) others, width_pos m.value)) behind in
    rw
      (find_loop_step r key (length ms) member m (get_elem?-drop r.tokens member h)
        (omega (arith, size, length-append (flatten m.value) others, width_pos m.value)))
      (rw (skip-flatten r m.value others (suc member) behind)
        (elim (Bool-cases (equal (slice r.json m.key_start m.key_stop) key)) [
          | inl same ↦ rw same (suc member, others, refl, behind)
          | inr other ↦ rw other (find_loop-skip ms r key next post rest ih)
        ]))

-- Where the tokens of an object start at `tok`, with a value for each key: `find` gives the index at
-- which the value of the first member with the key starts, and -1 exactly where no member has it.
pub find-lookup :
    (r : Reader) (tok start stop : ℕ) (ms : List Member) (key : Bytes) (post : List Token)
    → drop tok r.tokens ≡ flatten (node object start stop (members_forest ms)) ++ post
    → Points r (find r (some tok) key) (lookup r.json key ms)
unfolding find is_object flatten
find-lookup r tok start stop ms key post h =
    rw (get_elem?-drop r.tokens tok h, degree_members ms, add-one, is_object)
      (find_loop-lookup ms r key (suc tok) post (drop-suc r.tokens tok h))
