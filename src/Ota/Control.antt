-- ===== src/Ota/Control.antt =====
-- Starting and cancelling an update: `start`, `cancel` and the end of the task (sc_ota.cpp lines 21 to 49
-- and 68 to 77).
use esp_soulcloud_client.Prelude.{
  List, [], ◌∷◌, ◌≡◌, ◌≢◌, refl, ◌∙◌, Bool, true, false, not, Bytes, equal, equal_iff,
  if◌then◌else◌, inl, inr, Bool-cases, arith,
}
use esp_soulcloud_client.Esp.{EspErr}
use esp_soulcloud_client.Ota.{Params}

-- The members that the two tasks share.
pub record Control : Type 0 where
  pub running : Bool
  pub cancel_requested : Bool
  pub params : Params

-- `start`; `created` says whether `xTaskCreate` passed.
unfoldable pub start : Bool → Params → Control → EspErr × Control
start created params c =
    if c.running
    then (if equal params.task_id c.params.task_id then EspErr.esp_ok else EspErr.invalid_state, c)
    else if created
    then (EspErr.esp_ok, record { running = true; cancel_requested = false; params = params })
    else (EspErr.no_mem, record { running = false; cancel_requested = false; params = params })

unfoldable pub cancel : Bytes → Control → EspErr × Control
cancel task_id c =
    if not c.running
    then (EspErr.not_found, c)
    else if not (equal task_id c.params.task_id)
    then (EspErr.not_found, c)
    else (EspErr.esp_ok, record c { cancel_requested = true })

-- What other tasks ask while an update runs.
pub data Request : Type 0 where
  starts : Bool → Params → Request
  cancels : Bytes → Request

unfoldable pub ask : Control → Request → Control
ask c (starts created params) = (start created params c).1
ask c (cancels task_id) = (cancel task_id c).1

unfoldable pub ask_all : Control → List Request → Control
ask_all c [] = c
ask_all c (r ∷ rs) = ask_all (ask c r) rs

-- No request names the update `id` in a cancellation.
abbrev pub NoCancel : Bytes → List Request → Type 0
NoCancel id [] = Unit
NoCancel id (starts created params ∷ rs) = NoCancel id rs
NoCancel id (cancels task_id ∷ rs) = (task_id ≢ id) × NoCancel id rs

start_running :
    (created : Bool) (params : Params) (c : Control)
    → c.running ≡ true
    → (start created params c).1 ≡ c
unfolding start
start_running created params c r = rw r refl

cancel_running :
    (task_id : Bytes) (c : Control)
    → c.running ≡ true
    → ((cancel task_id c).1.running ≡ true) × ((cancel task_id c).1.params ≡ c.params)
unfolding cancel
cancel_running task_id c r = ground (arith, r)

-- Whatever is asked while an update runs, it stays the running one, with the parameters it has.
pub ask_all-params :
    (rs : List Request) (c : Control)
    → c.running ≡ true
    → ((ask_all c rs).running ≡ true) × ((ask_all c rs).params ≡ c.params)
unfolding ask_all ask
ask_all-params [] c r = (r, refl)
ask_all-params (starts created params ∷ rs) c r =
    rw (start_running created params c r, ask_all) (ask_all-params rs c r)
ask_all-params (cancels task_id ∷ rs) c r =
    let k = cancel_running task_id c r in
    let rest = ask_all-params rs (cancel task_id c).1 k.0 in (rest.0, rest.1 ∙ k.1)

cancel_other :
    (task_id : Bytes) (c : Control)
    → c.running ≡ true
    → task_id ≢ c.params.task_id
    → (cancel task_id c).1 ≡ c
unfolding cancel
cancel_other task_id c r other = elim (Bool-cases (equal task_id c.params.task_id)) [
  | inl same ↦ absurd (other ((equal_iff task_id c.params.task_id).0 same))
  | inr apart ↦ rw (r, apart) refl
]

-- Requests that do not cancel the running update by its id do not touch it.
pub ask_all-other :
    (rs : List Request) (c : Control)
    → c.running ≡ true
    → NoCancel c.params.task_id rs
    → ask_all c rs ≡ c
unfolding ask_all ask
ask_all-other [] c r n = refl
ask_all-other (starts created params ∷ rs) c r n =
    rw (start_running created params c r) (ask_all-other rs c r n)
ask_all-other (cancels task_id ∷ rs) c r n =
    rw (cancel_other task_id c r n.0) (ask_all-other rs c r n.1)
