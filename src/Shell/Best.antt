-- ===== src/Shell/Best.antt =====
-- The command that a line runs.
use esp_soulcloud_client.Prelude.{
  ℕ, zero, suc, ◌+◌, ◌-◌, ◌%◌, ◌≤◌, ◌<◌, List, [], ◌∷◌, ◌++◌, ◌≡◌, refl, sym, ap, ◌∙◌, ◌⊎◌, inl,
  inr, Bool, true, false, ◌&&◌, Option, none, some, Bytes, length, take, drop, get_elem?, equal,
  equal_iff, ◌==◌, if◌then◌else◌, if_cases, Bool-cases, Option-cases, drop-length-append,
  length-append, subst, arith,
}
use esp_soulcloud_client.Esp.{EspErr}
use esp_soulcloud_client.Shell.{
  count_from, count_words, split_onto, matches, name_matches, tokens_onto, max_args, Entry,
  put_entry, add, is_longer, pick, unknown, runs, run_words, run,
}

and_true : (a b : Bool) → a && b ≡ true → (a ≡ true) × (b ≡ true)
and_true true b h = (refl, h)
and_true false b h = absurd (ground (arith, h))

-- A match is the words of the name in front of the arguments.
matches-prefix :
    (ws argv : List Bytes) → matches ws argv ≡ true → (rest : List Bytes) × (argv ≡ ws ++ rest)
unfolding matches
matches-prefix [] argv h = (argv, refl)
matches-prefix (w ∷ ws) [] h = absurd (ground (arith, h))
matches-prefix (w ∷ ws) (a ∷ argv) h =
    let both = and_true (equal a w) (matches ws argv) h in
    let (rest, e) = matches-prefix ws argv both.1 in (rest, rw ((equal_iff a w).0 both.0, e) refl)

split_some : (word cs : Bytes) → 0 < length (split_onto word cs)
split_some word [] = omega arith
split_some word (c ∷ cs) =
    if_cases (λ l. 0 < length l) (c == b' ') (λ space. omega arith)
      (λ other. split_some (word ++ c ∷ []) cs)

abbrev Counts : Bytes → ℕ → List Bytes → Type 0
Counts cs words l = count_from words cs ≡ (words + (length l - 1)) % 256

length-take_le : (n : ℕ) (xs : List Bytes) → length (take n xs) ≤ n
length-take_le zero xs = omega arith
length-take_le (suc n) [] = omega arith
length-take_le (suc n) (x ∷ xs) = let rest = length-take_le n xs in omega (arith, rest)

count_from-split :
    (word cs : Bytes) (words : ℕ) → words < 256 → Counts cs words (split_onto word cs)
unfolding count_from
count_from-split word [] words lt = omega (arith, lt)
count_from-split word (c ∷ cs) words lt = elim (Bool-cases (c == b' ')) [
  | inl e ↦ rw e (
      count_from-split [] cs ((words + 1) % 256) (omega arith)
      ∙ (let some_more = split_some [] cs in omega (arith, some_more)))
  | inr e ↦
      rw e (count_from-split (word ++ c ∷ []) cs ((words + 0) % 256) (omega arith) ∙ omega arith)
]

-- The number that `add` stores with a name is the number of its words, on 8 bits.
pub count_words-split : (name : Bytes) → count_words name ≡ length (split_onto [] name) % 256
unfolding count_words
count_words-split name =
    let some_word = split_some [] name in
    count_from-split [] name 1 (omega arith) ∙ ap (λ k. k % 256) (omega (arith, some_word))

module _ (H : Type 0) where
  -- Every command has the number of words of its name.
  abbrev pub IsCounted : List (Option (Entry H)) → Type 0
  IsCounted [] = Unit
  IsCounted (none ∷ cmds) = IsCounted cmds
  IsCounted (some cmd ∷ cmds) = (cmd.words ≡ count_words cmd.name) × IsCounted cmds

  abbrev Covers : Option (Entry H) → ℕ → Type 0
  Covers none words = ⊥
  Covers (some best) words = words ≤ best.words

  abbrev better : List Bytes → Option (Entry H) → Entry H → Option (Entry H)
  better argv best cmd =
      if is_longer H best cmd && name_matches cmd.name argv then some cmd else best

  better-Covers :
      (argv : List Bytes) (best : Option (Entry H)) (cmd : Entry H) (words : ℕ)
      → Covers best words
      → Covers (better argv best cmd) words
  better-Covers argv none cmd words c = absurd c
  better-Covers argv (some best) cmd words c = ground arith

  better-Covers_match :
      (argv : List Bytes) (best : Option (Entry H)) (cmd : Entry H)
      → name_matches cmd.name argv ≡ true
      → Covers (better argv best cmd) cmd.words
  better-Covers_match argv none cmd m = rw m (omega arith)
  better-Covers_match argv (some best) cmd m = rw m (ground arith)

  pick-Covers :
      (cmds : List (Option (Entry H))) (argv : List Bytes) (best : Option (Entry H)) (words : ℕ)
      → Covers best words
      → Covers (pick H argv best cmds) words
  unfolding pick
  pick-Covers [] argv best words c = c
  pick-Covers (none ∷ cmds) argv best words c = pick-Covers cmds argv best words c
  pick-Covers (some cmd ∷ cmds) argv best words c =
      pick-Covers cmds argv (better argv best cmd) words (better-Covers argv best cmd words c)

  pick-Covers_match :
      (cmds : List (Option (Entry H))) (argv : List Bytes) (best : Option (Entry H)) (i : ℕ)
      (cmd : Entry H)
      → get_elem? cmds i ≡ some (some cmd)
      → name_matches cmd.name argv ≡ true
      → Covers (pick H argv best cmds) cmd.words
  unfolding pick
  pick-Covers_match [] argv best i cmd there m = absurd (ground (arith, there))
  pick-Covers_match (none ∷ cmds) argv best zero cmd there m = absurd (ground (arith, there))
  pick-Covers_match (none ∷ cmds) argv best (suc i) cmd there m =
      pick-Covers_match cmds argv best i cmd there m
  pick-Covers_match (some c ∷ cmds) argv best zero cmd there m =
      let same : c ≡ cmd = cc in
      rw same (
        pick-Covers cmds argv (better argv best cmd) cmd.words
          (better-Covers_match argv best cmd m))
  pick-Covers_match (some c ∷ cmds) argv best (suc i) cmd there m =
      pick-Covers_match cmds argv (better argv best c) i cmd there m

  -- What is picked was the best before, or is a command of the table that matches.
  abbrev Picked : List (Option (Entry H)) → List Bytes → Option (Entry H) → Entry H → Type 0
  Picked cmds argv best e =
      (best ≡ some e)
      ⊎ ((i : ℕ) × (get_elem? cmds i ≡ some (some e)) × (name_matches e.name argv ≡ true))

  better-Picked :
      (argv : List Bytes) (best : Option (Entry H)) (cmd e : Entry H)
      → better argv best cmd ≡ some e
      → (best ≡ some e) ⊎ ((cmd ≡ e) × (name_matches cmd.name argv ≡ true))
  better-Picked argv best cmd e h =
      elim (Bool-cases (is_longer H best cmd && name_matches cmd.name argv)) [
        | inl g ↦
            (let taken : some cmd ≡ some e = ap (λ b. if b then some cmd else best) (sym g) ∙ h in
              inr (
                ground (arith, taken),
                (and_true (is_longer H best cmd) (name_matches cmd.name argv) g).1,
              ))
        | inr g ↦ inl (ground (arith, g, h))
      ]

  pick-Picked :
      (cmds : List (Option (Entry H))) (argv : List Bytes) (best : Option (Entry H)) (e : Entry H)
      → pick H argv best cmds ≡ some e
      → Picked cmds argv best e
  unfolding pick
  pick-Picked [] argv best e h = inl h
  pick-Picked (none ∷ cmds) argv best e h = elim (pick-Picked cmds argv best e h) [
    | inl was ↦ inl was
    | inr (i, there, m) ↦ inr (suc i, there, m)
  ]
  pick-Picked (some cmd ∷ cmds) argv best e h =
      elim (pick-Picked cmds argv (better argv best cmd) e h) [
        | inl was ↦ elim (better-Picked argv best cmd e was) [
          | inl before ↦ inl before
          | inr (same, m) ↦ inr (0, ap (λ x. some (some x)) same, rw⁻¹ same m)
        ]
        | inr (i, there, m) ↦ inr (suc i, there, m)
      ]

  run_words-pick :
      (cmds : List (Option (Entry H))) (argv args : List Bytes) (e : Entry H)
      → run_words H cmds argv ≡ runs e args
      → (pick H argv none cmds ≡ some e) × (args ≡ drop e.words argv)
  unfolding run_words
  run_words-pick cmds [] args e h = absurd (ground (arith, h))
  run_words-pick cmds (a ∷ argv) args e h = elim (Option-cases (pick H (a ∷ argv) none cmds)) [
    | inl p ↦ absurd (ground (arith, h, p))
    | inr (best, p) ↦ ground (arith, h, p)
  ]

  IsCounted-get_elem? :
      (cmds : List (Option (Entry H))) (i : ℕ) (e : Entry H)
      → IsCounted cmds
      → get_elem? cmds i ≡ some (some e)
      → e.words ≡ count_words e.name
  IsCounted-get_elem? [] i e c there = absurd (ground (arith, there))
  IsCounted-get_elem? (none ∷ cmds) zero e c there = absurd (ground (arith, there))
  IsCounted-get_elem? (none ∷ cmds) (suc i) e c there = IsCounted-get_elem? cmds i e c there
  IsCounted-get_elem? (some cmd ∷ cmds) zero e c there = let same : cmd ≡ e = cc in rw⁻¹ same c.0
  IsCounted-get_elem? (some cmd ∷ cmds) (suc i) e c there = IsCounted-get_elem? cmds i e c.1 there

  abbrev pub words_of : Bytes → List Bytes
  words_of line = take max_args (tokens_onto [] line)

  -- Where each entry has the word count of its name: a command runs only where the line starts with the
  -- words of its name. Its arguments are the words behind them among the first 16 words of the line;
  -- words past the 16th are dropped.
  pub run-prefix :
      (cmds : List (Option (Entry H))) (line : Bytes) (e : Entry H) (args : List Bytes)
      → IsCounted cmds
      → run H cmds line ≡ runs e args
      → words_of line ≡ split_onto [] e.name ++ args
  unfolding run name_matches
  run-prefix cmds line e args counted h =
      let (p, a) = run_words-pick cmds (words_of line) args e h in
      elim (pick-Picked cmds (words_of line) none e p) [
        | inl none_before ↦ absurd (ground (arith, none_before))
        | inr (i, there, m) ↦
            let (rest, f) = matches-prefix (split_onto [] e.name) (words_of line) m in
            let few = length-take_le max_args (tokens_onto [] line) in
            let n = ap length f ∙ length-append (split_onto [] e.name) rest in
            let w = IsCounted-get_elem? cmds i e counted there ∙ count_words-split e.name in
            let k : e.words ≡ length (split_onto [] e.name) = omega (arith, few, n, w) in
            f
            ∙ ap (λ x. split_onto [] e.name ++ x)
                (sym (
                  a
                  ∙ ap (λ x. drop x (words_of line)) k
                  ∙ ap (drop (length (split_onto [] e.name))) f
                  ∙ drop-length-append (split_onto [] e.name) rest))
      ]

  -- No command of the table that matches the line has more words than the one that runs.
  pub run-longest :
      (cmds : List (Option (Entry H))) (line : Bytes) (e other : Entry H) (args : List Bytes)
      (i : ℕ)
      → run H cmds line ≡ runs e args
      → get_elem? cmds i ≡ some (some other)
      → name_matches other.name (words_of line) ≡ true
      → other.words ≤ e.words
  unfolding run
  run-longest cmds line e other args i h there m =
      let (p, a) = run_words-pick cmds (words_of line) args e h in
      subst (λ x. Covers x other.words) p
        (pick-Covers_match cmds (words_of line) none i other there m)

  run_words-unknown :
      (cmds : List (Option (Entry H))) (argv : List Bytes) (a : Bytes)
      → run_words H cmds argv ≡ unknown a
      → pick H argv none cmds ≡ none
  unfolding run_words
  run_words-unknown cmds [] a h = absurd (ground (arith, h))
  run_words-unknown cmds (b ∷ argv) a h = elim (Option-cases (pick H (b ∷ argv) none cmds)) [
    | inl p ↦ p
    | inr (best, p) ↦ absurd (ground (arith, h, p))
  ]

  -- A line is answered as unknown only where no command of the table matches it.
  pub run-unknown :
      (cmds : List (Option (Entry H))) (line a : Bytes) (other : Entry H) (i : ℕ)
      → run H cmds line ≡ unknown a
      → get_elem? cmds i ≡ some (some other)
      → name_matches other.name (words_of line) ≡ false
  unfolding run
  run-unknown cmds line a other i h there =
      elim (Bool-cases (name_matches other.name (words_of line))) [
        | inl m ↦ absurd (
            subst (λ x. Covers x other.words) (run_words-unknown cmds (words_of line) a h)
              (pick-Covers_match cmds (words_of line) none i other there m))
        | inr m ↦ m
      ]

  put_entry-IsCounted :
      (e : Entry H) (cmds cmds' : List (Option (Entry H)))
      → e.words ≡ count_words e.name
      → IsCounted cmds
      → put_entry H e cmds ≡ some cmds'
      → IsCounted cmds'
  unfolding put_entry
  put_entry-IsCounted e [] cmds' w c h = absurd (ground (arith, h))
  put_entry-IsCounted e (none ∷ cmds) cmds' w c h =
      let same : some e ∷ cmds ≡ cmds' = cc in subst IsCounted same (w, c)
  put_entry-IsCounted e (some cmd ∷ cmds) cmds' w c h = elim (Bool-cases (equal cmd.name e.name)) [
    | inl q ↦
        (let same : some e ∷ cmds ≡ cmds' = ground (arith, q, h) in subst IsCounted same (w, c.1))
    | inr q ↦ elim (Option-cases (put_entry H e cmds)) [
      | inl f ↦ absurd (ground (arith, q, h, f))
      | inr (rest, f) ↦
          (let same : some cmd ∷ rest ≡ cmds' = ground (arith, q, h, f) in
            subst IsCounted same (c.0, put_entry-IsCounted e cmds rest w c.1 f))
    ]
  ]

  -- Whatever is added to the table, and whether that succeeds, every command keeps the number of
  -- words of its name.
  pub add-IsCounted :
      (name help : Option Bytes) (handler : Option H) (cmds : List (Option (Entry H)))
      → IsCounted cmds
      → IsCounted ((add H name help handler cmds).1)
  unfolding add
  add-IsCounted none help handler cmds c = c
  add-IsCounted (some name) help none cmds c = c
  add-IsCounted (some name) help (some handler) cmds c =
      let e : Entry H = record {
        name = name;
        help = help;
        handler = handler;
        words = count_words name;
      } in
      if_cases (λ (r : EspErr × List (Option (Entry H))). IsCounted r.1) (length name == 0)
        (λ empty. c)
        (λ named. elim (Option-cases (put_entry H e cmds)) [
          | inl f ↦ rw f c
          | inr (cmds', f) ↦ rw f (put_entry-IsCounted e cmds cmds' refl c f)
        ])
