-- ===== src/Client.antt =====
-- The request task of `sc_client`: `run_task` and `on_connected`, and the event bits that the other tasks
-- set (src/sc_client.cpp lines 84 to 86 and 285 to 332, include/soulcloud.hpp lines 176 to 182).
pub mod Rounds
pub mod Calls
pub mod Methods
pub mod Reports
use esp_soulcloud_client.Prelude.{
  ℕ, zero, suc, ◌+◌, ◌-◌, ◌%◌, ◌^◌, List, [], ◌∷◌, ◌++◌, Bool, true, false, not, ◌&&◌, ◌||◌, leb,
  ltb, ◌==◌, if◌then◌else◌,
}

-- The bits of the event group, but the one that `sc_rpc::call` waits for.
pub record Bits : Type 0 where
  pub request : Bool
  pub connected : Bool
  pub disconnected : Bool
  pub report_status : Bool

abbrev pub no_bits : Bits
no_bits = record { request = false; connected = false; disconnected = false; report_status = false }

-- What sets a bit: `set_connection_cb`'s function, `submit`, and `request_status_report`.
pub data Signal : Type 0 where
  connection : Bool → Signal
  submitted : Signal
  report_wanted : Signal

unfoldable pub set_bits : Bits → Signal → Bits
set_bits b (connection true) = record b { connected = true }
set_bits b (connection false) = record b { disconnected = true }
set_bits b submitted = record b { request = true }
set_bits b report_wanted = record b { report_status = true }

unfoldable pub signal_all : Bits → List Signal → Bits
signal_all b [] = b
signal_all b (s ∷ ss) = signal_all (set_bits b s) ss

-- The calls that the task makes. `report` has its argument `birth`, `tell` that of the application's
-- `connection_cb`.
pub data Action : Type 0 where
  report : Bool → Action
  confirm_running_image sync_time check_for_update handle_ready : Action
  tell : Bool → Action

-- `has_callback` says whether the application set `connection_cb`.
pub record Task : Type 0 where
  pub next_report : ℕ
  pub first_connection : Bool
  pub has_callback : Bool

abbrev pub tell_app : Task → Bool → List Action
tell_app t up = if t.has_callback then tell up ∷ [] else []

unfoldable pub on_connected : Task → Task × List Action
on_connected t = (
  record t { first_connection = false },
  report true
      ∷ ((if t.first_connection
            then confirm_running_image ∷ sync_time ∷ check_for_update ∷ []
            else [])
          ++ tell_app t true),
)

-- A tick count has 32 bits.
abbrev pub after : ℕ → ℕ → ℕ
after ticks heartbeat = (ticks + heartbeat) % 2 ^ 32

-- `static_cast<int32_t>(next_report - ticks) <= 0`.
unfoldable pub report_due : ℕ → ℕ → Bool
report_due next_report ticks =
    let left = (next_report + 2 ^ 32 - ticks) % 2 ^ 32 in left == 0 || leb (2 ^ 31) left

-- What a round reads: the bits that the wait gave and cleared, the tick count behind `on_connected`,
-- at the test and behind the report, and `connected()` of the MQTT client.
pub record Round : Type 0 where
  pub bits : Bits
  pub ticks_connected : ℕ
  pub ticks : ℕ
  pub ticks_reported : ℕ
  pub is_connected : Bool

unfoldable pub connect_part : ℕ → Task → Round → Task × List Action
connect_part heartbeat t r =
    let (t', actions) = on_connected t in
    if r.bits.connected
    then (record t' { next_report = after r.ticks_connected heartbeat }, actions)
    else (t, [])

unfoldable pub report_part : ℕ → Task → Round → Task × List Action
report_part heartbeat t r =
    if r.bits.report_status || report_due t.next_report r.ticks
    then (
      record t { next_report = after r.ticks_reported heartbeat },
      if r.is_connected then report false ∷ [] else [],
    )
    else (t, [])

-- One round of the loop of `run_task`.
unfoldable pub run_round : ℕ → Task → Round → Task × List Action
run_round heartbeat t r =
    let first = connect_part heartbeat t r in
    let lost = if r.bits.disconnected then tell_app first.0 false else [] in
    let last = report_part heartbeat first.0 r in
    (last.0, first.1 ++ (lost ++ (handle_ready ∷ last.1)))

unfoldable pub run_task : ℕ → Task → List Round → Task × List Action
run_task heartbeat t [] = (t, [])
run_task heartbeat t (r ∷ rs) =
    let round = run_round heartbeat t r in
    let later = run_task heartbeat round.0 rs in (later.0, round.1 ++ later.1)
