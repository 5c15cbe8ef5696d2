-- ===== src/Shell.antt =====
-- `sc_shell` and `sc_shell_out` (src/sc_shell.cpp, src/sc_shell.hpp): the command table, the choice of
-- a command for a line, and the output buffer. The commands' handlers are the type `H`.
pub mod Best
pub mod Output
use esp_soulcloud_client.Prelude.{
  ℕ, zero, suc, ◌+◌, ◌-◌, ◌%◌, List, [], ◌∷◌, ◌++◌, Bool, true, false, ◌&&◌, ◌||◌, Option, none,
  some, Bytes, length, take, drop, equal, ltb, ◌==◌, if◌then◌else◌,
}
use esp_soulcloud_client.Esp.{EspErr}

abbrev pub max_args : ℕ
max_args = 16

-- The count is a `uint8_t`.
unfoldable pub count_from : ℕ → Bytes → ℕ
count_from words [] = words
count_from words (c ∷ cs) = count_from ((words + (if c == b' ' then 1 else 0)) % 256) cs

unfoldable pub count_words : Bytes → ℕ
unfolding count_from
count_words name = count_from 1 name

-- The words that `name_matches` finds with `strchr`, the one in hand first.
abbrev pub split_onto : Bytes → Bytes → List Bytes
split_onto word [] = word ∷ []
split_onto word (c ∷ cs) =
    if c == b' ' then word ∷ split_onto [] cs else split_onto (word ++ c ∷ []) cs

unfoldable pub matches : List Bytes → List Bytes → Bool
matches [] argv = true
matches (w ∷ ws) [] = false
matches (w ∷ ws) (a ∷ argv) = equal a w && matches ws argv

unfoldable pub name_matches : Bytes → List Bytes → Bool
unfolding matches
name_matches name argv = matches (split_onto [] name) argv

-- `strtok_r` with the delimiters of `run`, word after word.
abbrev pub is_delimiter : ℕ → Bool
is_delimiter c = c == b' ' || c == 9 || c == 13 || c == 10

abbrev pub flush : Bytes → List Bytes
flush [] = []
flush (c ∷ cs) = (c ∷ cs) ∷ []

abbrev pub tokens_onto : Bytes → Bytes → List Bytes
tokens_onto word [] = flush word
tokens_onto word (c ∷ cs) =
    if is_delimiter c then flush word ++ tokens_onto [] cs else tokens_onto (word ++ c ∷ []) cs

module _ (H : Type 0) where
  pub record Entry : Type 0 where
    pub name : Bytes
    pub help : Option Bytes
    pub handler : H
    pub words : ℕ

  -- The loop of `add`: the first entry that is free or has the name; `none` where there is none.
  unfoldable pub put_entry : Entry → List (Option Entry) → Option (List (Option Entry))
  put_entry e [] = none
  put_entry e (none ∷ cmds) = some (some e ∷ cmds)
  put_entry e (some cmd ∷ cmds) =
      let rest = put_entry e cmds in
      if equal cmd.name e.name
      then some (some e ∷ cmds)
      else elim rest [ none ↦ none | some cmds' ↦ some (some cmd ∷ cmds') ]

  -- `add`. A null name is `none`, and so is a handler that is not there.
  unfoldable pub add :
      Option Bytes → Option Bytes → Option H → List (Option Entry) → EspErr × List (Option Entry)
  add none help handler cmds = (EspErr.invalid_arg, cmds)
  add (some name) help none cmds = (EspErr.invalid_arg, cmds)
  add (some name) help (some handler) cmds =
      if length name == 0
      then (EspErr.invalid_arg, cmds)
      else elim (put_entry
          (record { name = name; help = help; handler = handler; words = count_words name }) cmds) [
            | none ↦ (EspErr.no_mem, cmds)
            | some cmds' ↦ (EspErr.esp_ok, cmds')
          ]

  -- The loop of `run` over the commands.
  abbrev pub is_longer : Option Entry → Entry → Bool
  is_longer none cmd = true
  is_longer (some best) cmd = ltb best.words cmd.words

  unfoldable pub pick : List Bytes → Option Entry → List (Option Entry) → Option Entry
  pick argv best [] = best
  pick argv best (none ∷ cmds) = pick argv best cmds
  pick argv best (some cmd ∷ cmds) =
      pick argv (if is_longer best cmd && name_matches cmd.name argv then some cmd else best) cmds

  -- What `run` does with a line: nothing, the message and 127, or a handler with its arguments.
  pub data Outcome : Type 0 where
    nothing : Outcome
    unknown : Bytes → Outcome
    runs : Entry → List Bytes → Outcome

  unfoldable pub run_words : List (Option Entry) → List Bytes → Outcome
  run_words cmds [] = nothing
  run_words cmds (a ∷ argv) = elim (pick (a ∷ argv) none cmds) [
    | none ↦ unknown a
    | some best ↦ runs best (drop best.words (a ∷ argv))
  ]

  unfoldable pub run : List (Option Entry) → Bytes → Outcome
  run cmds line = run_words cmds (take max_args (tokens_onto [] line))
