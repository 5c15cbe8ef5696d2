-- ===== src/Client/Rounds.antt =====
-- The order and the number of the calls that the request task makes.
use esp_soulcloud_client.Prelude.{
  ℕ, suc, ◌+◌, ◌%◌, ◌^◌, ◌<◌, List, [], ◌∷◌, ◌++◌, ◌≡◌, refl, ap, ◌∙◌, Bool, true, false, not, leb,
  if◌then◌else◌, if_cases, append-nil, arith,
}
use esp_soulcloud_client.Client.{
  Bits, Action, Task, Round, on_connected, after, report_due, connect_part, report_part, run_round,
  run_task, tell_app, Signal, signal_all, set_bits,
}

-- How often an update was asked for.
abbrev pub checks : List Action → ℕ
checks [] = 0
checks (Action.check_for_update ∷ actions) = suc (checks actions)
checks (_ ∷ actions) = checks actions

checks-append : (xs ys : List Action) → checks (xs ++ ys) ≡ checks xs + checks ys
checks-append [] ys = omega arith
checks-append (Action.check_for_update ∷ xs) ys =
    let rest = checks-append xs ys in omega (arith, rest)
checks-append (_ ∷ xs) ys = checks-append xs ys

-- The tick count wraps around: for a heartbeat below 2^31 ticks, from any tick count, a report is due
-- behind fewer than 2^31 ticks exactly where the heartbeat has gone by.
pub report_due-after :
    (ticks elapsed heartbeat : ℕ)
    → ticks < 2 ^ 32
    → elapsed < 2 ^ 31
    → heartbeat < 2 ^ 31
    → report_due (after ticks heartbeat) ((ticks + elapsed) % 2 ^ 32) ≡ leb heartbeat elapsed
unfolding report_due
report_due-after ticks elapsed heartbeat h k l = ground arith

-- What the application was told, in order.
abbrev pub told : List Action → List Bool
told [] = []
told (Action.tell up ∷ actions) = up ∷ told actions
told (_ ∷ actions) = told actions

told-append : (xs ys : List Action) → told (xs ++ ys) ≡ told xs ++ told ys
told-append [] ys = refl
told-append (Action.tell up ∷ xs) ys = ap (◌∷◌ up) (told-append xs ys)
told-append (_ ∷ xs) ys = told-append xs ys

-- The checks that are still to come, at most.
abbrev pub checks_left : Task → ℕ
checks_left t = if t.first_connection then 1 else 0

connect_part-checks :
    (heartbeat : ℕ) (t : Task) (r : Round)
    → checks (connect_part heartbeat t r).1 + checks_left (connect_part heartbeat t r).0
      ≡ checks_left t
unfolding connect_part on_connected
connect_part-checks heartbeat t r = ground arith

report_part-checks :
    (heartbeat : ℕ) (t : Task) (r : Round)
    → (checks (report_part heartbeat t r).1 ≡ 0)
      × ((report_part heartbeat t r).0.first_connection ≡ t.first_connection)
unfolding report_part
report_part-checks heartbeat t r = (ground arith, ground arith)

tell_app-checks : (t : Task) (up : Bool) → checks (tell_app t up) ≡ 0
tell_app-checks t up = ground arith

run_round-checks :
    (heartbeat : ℕ) (t : Task) (r : Round)
    → checks (run_round heartbeat t r).1 + checks_left (run_round heartbeat t r).0 ≡ checks_left t
unfolding run_round
run_round-checks heartbeat t r =
    let first = connect_part heartbeat t r in
    let last = report_part heartbeat first.0 r in
    let lost : List Action = if r.bits.disconnected then tell_app first.0 false else [] in
    let none_lost : checks lost ≡ 0 =
      if_cases (λ (xs : List Action). checks xs ≡ 0) r.bits.disconnected
        (λ _. tell_app-checks first.0 false) (λ _. refl) in
    let (no_check, same) = report_part-checks heartbeat first.0 r in
    let n = checks-append first.1 (lost ++ (Action.handle_ready ∷ last.1)) in
    let m = checks-append lost (Action.handle_ready ∷ last.1) in
    let k = connect_part-checks heartbeat t r in
    let left : checks_left last.0 ≡ checks_left first.0 =
      ap (λ (b : Bool). if b then 1 else 0) same in
    omega (arith, n, m, k, no_check, none_lost, left)

-- Over any rounds, the task asks for an update once where its first connection comes up in them, and
-- never otherwise: the checks that it made, and one more where the first connection is still to come, are one
-- where it was to come before, and else none.
pub run_task-checks :
    (heartbeat : ℕ) (rs : List Round) (t : Task)
    → checks (run_task heartbeat t rs).1 + checks_left (run_task heartbeat t rs).0 ≡ checks_left t
unfolding run_task
run_task-checks heartbeat [] t = omega arith
run_task-checks heartbeat (r ∷ rs) t =
    let round = run_round heartbeat t r in
    let n = checks-append round.1 (run_task heartbeat round.0 rs).1 in
    let here = run_round-checks heartbeat t r in
    let later = run_task-checks heartbeat rs round.0 in omega (arith, n, here, later)

-- What a round tells, by the bits alone.
abbrev pub told_by : Bits → List Bool
told_by b = (if b.connected then true ∷ [] else []) ++ (if b.disconnected then false ∷ [] else [])

connect_part-told :
    (heartbeat : ℕ) (t : Task) (r : Round)
    → t.has_callback ≡ true
    → (told (connect_part heartbeat t r).1 ≡ (if r.bits.connected then true ∷ [] else []))
      × ((connect_part heartbeat t r).0.has_callback ≡ true)
unfolding connect_part on_connected
connect_part-told heartbeat t r h = (ground (arith, h), ground (arith, h))

report_part-told : (heartbeat : ℕ) (t : Task) (r : Round) → told (report_part heartbeat t r).1 ≡ []
unfolding report_part
report_part-told heartbeat t r = ground arith

lost-told :
    (t : Task) (disconnected : Bool)
    → t.has_callback ≡ true
    → told (if disconnected then tell_app t false else [])
      ≡ (if disconnected then false ∷ [] else [])
lost-told t disconnected h = ground (arith, h)

-- With a callback, a round tells the application of a connection where its bit is set, and then of a loss
-- where its bit is.
run_round-told :
    (heartbeat : ℕ) (t : Task) (r : Round)
    → t.has_callback ≡ true
    → told (run_round heartbeat t r).1 ≡ told_by r.bits
unfolding run_round
run_round-told heartbeat t r h =
    let first = connect_part heartbeat t r in
    let last = report_part heartbeat first.0 r in
    let lost : List Action = if r.bits.disconnected then tell_app first.0 false else [] in
    let (up, kept) = connect_part-told heartbeat t r h in
    let down = lost-told first.0 r.bits.disconnected kept in
    let quiet = report_part-told heartbeat first.0 r in
    told-append first.1 (lost ++ (Action.handle_ready ∷ last.1))
    ∙ ap (λ xs. told first.1 ++ xs) (told-append lost (Action.handle_ready ∷ last.1))
    ∙ rw (up, down, quiet)
        (ap (λ xs. (if r.bits.connected then true ∷ [] else []) ++ xs)
          (append-nil (if r.bits.disconnected then false ∷ [] else [])))

-- Where the connection was lost and came back, or came up and was lost, between two rounds, a task with a
-- callback tells the application the same: that it is up, and then that it is lost.
pub run_round-told_both :
    (heartbeat : ℕ) (t : Task) (r : Round) (b : Bits) (up : Bool)
    → t.has_callback ≡ true
    → r.bits ≡ signal_all b (Signal.connection up ∷ Signal.connection (not up) ∷ [])
    → told (run_round heartbeat t r).1 ≡ true ∷ false ∷ []
unfolding signal_all set_bits
run_round-told_both heartbeat t r b true h e = run_round-told heartbeat t r h ∙ ap told_by e
run_round-told_both heartbeat t r b false h e = run_round-told heartbeat t r h ∙ ap told_by e
