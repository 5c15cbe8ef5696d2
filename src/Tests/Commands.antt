-- ===== src/Tests/Commands.antt =====
-- A concrete command table and output buffer.
use esp_soulcloud_client.Prelude.{
  ℕ, ◌≤◌, [], ◌∷◌, ◌++◌, List, ◌≡◌, refl, true, false, Option, none, some, codes, replicate, arith,
  equal,
}
use esp_soulcloud_client.Shell.{
  Entry, unknown, runs, run, run_words, pick, name_matches, split_onto, count_words,
}
use esp_soulcloud_client.Shell.Best.{IsCounted, words_of, run-prefix, run-longest, run-unknown}
use esp_soulcloud_client.Shell.Output.{ShellOut, open_out}
use esp_soulcloud_client.Shell.Output.Shown.{Prints, write_all, write_all-shown}

abbrev short_cmd : Entry ℕ
short_cmd = record { name = codes "get"; help = none; handler = 1; words = 1 }

abbrev long_cmd : Entry ℕ
long_cmd = record { name = codes "get chip"; help = none; handler = 2; words = 2 }

abbrev table : List (Option (Entry ℕ))
table = some short_cmd ∷ some long_cmd ∷ none ∷ []

table-IsCounted : IsCounted ℕ table
unfolding count_words
table-IsCounted = (refl, (refl, tt))

chip_runs : run ℕ table (codes " get  chip now\r\n") ≡ runs long_cmd (codes "now" ∷ [])
unfolding run run_words pick name_matches equal
chip_runs = refl

run-prefix_example :
    words_of ℕ (codes " get  chip now\r\n") ≡ split_onto [] (codes "get chip") ++ codes "now" ∷ []
run-prefix_example =
    run-prefix ℕ table (codes " get  chip now\r\n") long_cmd (codes "now" ∷ []) table-IsCounted
      chip_runs

short_matches : name_matches (codes "get") (words_of ℕ (codes " get  chip now\r\n")) ≡ true
unfolding name_matches equal
short_matches = refl

run-longest_example : 1 ≤ 2
run-longest_example =
    run-longest ℕ table (codes " get  chip now\r\n") long_cmd short_cmd (codes "now" ∷ []) 0
      chip_runs refl short_matches

set_unknown : run ℕ table (codes "set x") ≡ unknown (codes "set")
unfolding run run_words pick name_matches equal
set_unknown = refl

run-unknown_example : name_matches (codes "get chip") (words_of ℕ (codes "set x")) ≡ false
run-unknown_example = run-unknown ℕ table (codes "set x") (codes "set") long_cmd 1 set_unknown refl

write_all-shown_example :
    Prints
      (write_all (open_out (replicate 6 1) 6) (codes "abc" ∷ codes "def" ∷ []))
      (codes "abcdef")
write_all-shown_example =
    write_all-shown (replicate 6 1) 6 (codes "abc" ∷ codes "def" ∷ []) refl (omega arith)

abbrev half_full : ShellOut
half_full = record { buf = replicate 6 0; size = 6; pos = 3; full = false }
