-- ===== src/Codec/Decode/Tags.antt =====
-- The two passes of `decode_log_config` over its tags.
use esp_soulcloud_client.Prelude.{
  ℕ, zero, suc, ◌+◌, ◌≡◌, refl, sym, ap, List, [], Bool, true, false, not, Option, none, some,
  Bytes, length, codes, ◌⊎◌, replicate, c_string, if◌then◌else◌, if_cases, inl, inr, Bool-cases,
  Option-cases, arith,
}
use esp_soulcloud_client.Esp.{EspErr}
use esp_soulcloud_client.Json.Reader.{Reader, find, get_str, is_object, child_count, str_at, skip}
use esp_soulcloud_client.Codec.Decode.{
  TagLevel, LogConfig, LogResult, with_named_level, level_from_name, with_level, read_member,
  pass_step, pass, and_then, passes, decode_tags, decode_log_config,
}
use esp_soulcloud_client.Codec.Decode.Refill.{SameRead, str_at-SameRead, get_str-size}

-- A member is read the same into any buffer.
record SameMember (x y : Option TagLevel × Bytes) : Type 0 where
  same_entry : x.0 ≡ y.0
  left_size : length x.1 ≡ 16
  right_size : length y.1 ≡ 16

read_level :
    (tag : Bytes) (x y : Bool × Bytes)
    → SameRead 16 x y
    → SameMember
        (if not x.0 then (none, x.1) else (with_level tag (level_from_name (c_string x.1)), x.1))
        (if not y.0 then (none, y.1) else (with_level tag (level_from_name (c_string y.1)), y.1))
read_level tag (true, a) (true, b) h = record {
  same_entry = ap (λ s. with_level tag (level_from_name s)) (h.same_string refl);
  left_size = h.left_size;
  right_size = h.right_size;
}
read_level tag (false, a) (false, b) h = record {
  same_entry = refl;
  left_size = h.left_size;
  right_size = h.right_size;
}
read_level tag (true, a) (false, b) h = absurd (ground (arith, h.same_result))
read_level tag (false, a) (true, b) h = absurd (ground (arith, h.same_result))

read_member-SameMember :
    (doc : Reader) (member : ℕ) (a b : Bytes)
    → length a ≡ 16
    → length b ≡ 16
    → SameMember (read_member doc member a) (read_member doc member b)
unfolding read_member
read_member-SameMember doc member a b la lb =
    let tag = str_at doc (some member) 32 (replicate 32 0) in
    let level =
      read_level (c_string tag.1) (str_at doc (some (member + 1)) 16 a)
        (str_at doc (some (member + 1)) 16 b)
        (str_at-SameRead doc (some (member + 1)) 16 a b la lb (omega arith)) in
    elim (Bool-cases tag.0) [
      | inl read ↦ rw (read, read_member) level
      | inr unread ↦
          rw (unread, read_member) (record { same_entry = refl; left_size = la; right_size = lb })
    ]

pass_step-same :
    (x y : Option TagLevel × Bytes) (later later' : (EspErr × List TagLevel) × Bytes)
    → SameMember x y
    → later.0.0 ≡ later'.0.0
    → (pass_step false x later).0.0 ≡ (pass_step true y later').0.0
pass_step-same (none, a) (none, b) later later' h e = refl
pass_step-same (some s, a) (some t, b) later later' h e = e
pass_step-same (none, a) (some t, b) later later' h e = absurd (ground (arith, h.same_entry))
pass_step-same (some s, a) (none, b) later later' h e = absurd (ground (arith, h.same_entry))

-- What the first pass says, the second does, whatever `name` holds.
pass-pass :
    (doc : Reader) (left : ℕ) (member : Option ℕ) (a b : Bytes)
    → length a ≡ 16
    → length b ≡ 16
    → (pass doc false left member a).0.0 ≡ (pass doc true left member b).0.0
unfolding pass
pass-pass doc zero member a b la lb = refl
pass-pass doc (suc left) none a b la lb = refl
pass-pass doc (suc left) (some member) a b la lb =
    let h = read_member-SameMember doc member a b la lb in
    let x = read_member doc member a in
    let y = read_member doc member b in
    let rest = skip doc (some (member + 1)) in
    pass_step-same x y (pass doc false left rest x.1) (pass doc true left rest y.1) h
      (pass-pass doc left rest x.1 y.1 h.left_size h.right_size)

-- A pass that makes no call, and keeps the size of `name`.
abbrev Quiet : (EspErr × List TagLevel) × Bytes → Type 0
Quiet r = (r.0.1 ≡ []) × (length r.1 ≡ 16)

pass_step-Quiet :
    (x : Option TagLevel × Bytes) (later : (EspErr × List TagLevel) × Bytes)
    → length x.1 ≡ 16
    → Quiet later
    → Quiet (pass_step false x later)
pass_step-Quiet (none, name) later h q = (refl, h)
pass_step-Quiet (some tag, name) later h q = q

pass-Quiet :
    (doc : Reader) (left : ℕ) (member : Option ℕ) (name : Bytes)
    → length name ≡ 16
    → Quiet (pass doc false left member name)
unfolding pass
pass-Quiet doc zero member name size = (refl, size)
pass-Quiet doc (suc left) none name size = (refl, size)
pass-Quiet doc (suc left) (some member) name size =
    let h = read_member-SameMember doc member name name size size in
    let x = read_member doc member name in
    let rest = skip doc (some (member + 1)) in
    pass_step-Quiet x (pass doc false left rest x.1) h.left_size
      (pass-Quiet doc left rest x.1 h.left_size)

-- Nothing is set where the result is an error.
abbrev AllOrNothing : EspErr × List TagLevel → Type 0
AllOrNothing r = (r.0 ≡ EspErr.esp_ok) ⊎ (r.1 ≡ [])

and_then-AllOrNothing :
    (first second : EspErr × List TagLevel)
    → first.0 ≡ second.0
    → first.1 ≡ []
    → AllOrNothing (and_then first second)
and_then-AllOrNothing (EspErr.esp_ok, calls) second e q = inl (sym e)
and_then-AllOrNothing (_, calls) second e q = inr q

decode_tags-AllOrNothing :
    (doc : Reader) (name : Bytes) → length name ≡ 16 → AllOrNothing (decode_tags doc name)
unfolding decode_tags passes
decode_tags-AllOrNothing doc name size = elim (Option-cases (find doc (some 0) (codes "tags"))) [
  | inl missing ↦ rw (missing, decode_tags) (inl refl)
  | inr (tags, found) ↦
      (let left = child_count doc (some tags) in
        let first = pass doc false left (some (tags + 1)) name in
        let quiet = pass-Quiet doc left (some (tags + 1)) name size in
        let same = pass-pass doc left (some (tags + 1)) name first.1 size quiet.1 in
        rw (found, decode_tags)
          (if_cases AllOrNothing (not (is_object doc (some tags))) (λ _. inr refl)
            (λ _.
              and_then-AllOrNothing first.0 (pass doc true left (some (tags + 1)) first.1).0 same
                quiet.0)))
]

with_named_level-AllOrNothing :
    (l : Option ℕ) (doc : Reader) (out : LogConfig) (rest : EspErr × List TagLevel)
    → AllOrNothing rest
    → AllOrNothing ((with_named_level l doc out rest).0.0, (with_named_level l doc out rest).1)
with_named_level-AllOrNothing none doc out rest h = inr refl
with_named_level-AllOrNothing (some l) doc out rest h = h

-- For any document and any configuration before: where `decode_log_config` fails, no tag's level was
-- set, whichever entry is at fault.
pub decode_log_config-tags :
    (doc : Reader) (out : LogConfig)
    → ((decode_log_config doc out).0.0 ≡ EspErr.esp_ok) ⊎ ((decode_log_config doc out).1 ≡ [])
unfolding decode_log_config
decode_log_config-tags doc out =
    let name = get_str doc (some 0) (codes "level") 16 (replicate 16 0) in
    let size = get_str-size doc (some 0) (codes "level") 16 (replicate 16 0) refl (omega arith) in
    let rest = decode_tags-AllOrNothing doc name.1 size in
    if_cases (λ (r : LogResult). AllOrNothing (r.0.0, r.1)) (not name.0) (λ _. rest)
      (λ _.
        with_named_level-AllOrNothing (level_from_name (c_string name.1)) doc out
          (decode_tags doc name.1) rest)
