-- ===== src/Tests/Updates.antt =====
-- A concrete update, over a server that sends a byte at a time.
use esp_soulcloud_client.Prelude.{
  ℕ, zero, suc, ◌≤◌, [], ◌∷◌, List, ◌≡◌, ◌≢◌, refl, true, false, Option, none, some, Bytes, codes,
  length, arith,
}
use esp_soulcloud_client.Esp.{EspErr}
use esp_soulcloud_client.Ota.{
  Params, Platform, Task, download, run, read_loop, read_round, take_chunk, chunk_written,
  report_progress, download_from, round, after_read, download_loop,
}
use esp_soulcloud_client.Ota.Boot.{EndsSafe, run-EndsSafe}
use esp_soulcloud_client.Ota.Control.{Control, Request, starts, cancels, ask_all, ask_all-params}
use esp_soulcloud_client.Ota.Download.{Done, download-ends}

abbrev read_one : Bytes → ℕ → Bytes × Bytes
read_one w zero = ([], w)
read_one [] (suc want) = ([], [])
read_one (b ∷ bs) (suc want) = (b ∷ [], bs)

read_one-fits : (w : Bytes) (want : ℕ) → length ((read_one w want).0) ≤ want
read_one-fits w zero = omega arith
read_one-fits [] (suc want) = omega arith
read_one-fits (b ∷ bs) (suc want) = omega arith

-- The world is what the server has still to send; the hash is the identity.
abbrev platform : Platform
platform = record {
  World = Bytes;
  cancelled = λ w. (false, w);
  connect = λ w url offset. (some 200, w);
  read = read_one;
  write = λ w bytes. (EspErr.esp_ok, w);
  now = λ w. (0, w);
  wait = λ w ms. w;
  partition = λ w. some 100;
  begin = λ w size. (EspErr.esp_ok, w);
  end = λ w. (EspErr.esp_ok, w);
  set_boot = λ w. (EspErr.esp_ok, w);
  sha256_of = λ bytes. bytes;
  err_name = λ e. codes "error";
  read_fits = read_one-fits;
}

abbrev params : Params
params = record {
  url = codes "https://x";
  sha256 = codes "0102";
  size = 2;
  version = codes "2";
  task_id = codes "t1";
}

abbrev fresh : Task platform
fresh = record {
  world = 1 ∷ 2 ∷ [];
  written = [];
  hashed = [];
  last_progress = none;
  last_report_us = 0;
  reports = [];
}

download-ends_example :
    (t : Task platform) × (e : EspErr) × (download platform 1024 params fresh ≡ some (t, e))
    × Done platform 1024 params t e
download-ends_example = download-ends platform 1024 params fresh refl refl

run-EndsSafe_example : EndsSafe platform 1024 params (run platform 1024 params fresh)
run-EndsSafe_example = run-EndsSafe platform 1024 params fresh refl refl

abbrev download_ret : Option (Task platform × EspErr) → Option (EspErr × Bytes)
download_ret none = none
download_ret (some (t, e)) = some (e, t.written)

-- The two bytes are written, and the download succeeds.
download_runs :
    download_ret (download platform 1024 params fresh) ≡ some (EspErr.esp_ok, 1 ∷ 2 ∷ [])
unfolding download download_loop round download_from read_loop read_round take_chunk chunk_written
    report_progress after_read
download_runs = refl

abbrev running : Control
running = record { running = true; cancel_requested = false; params = params }

abbrev requests : List Request
requests = starts true (record params { task_id = codes "t2" }) ∷ cancels (codes "t2") ∷ []

ask_all-params_example :
    ((ask_all running requests).running ≡ true) × ((ask_all running requests).params ≡ params)
ask_all-params_example = ask_all-params requests running refl

other_id : codes "t2" ≢ codes "t1"
other_id e = absurd (ground (arith, e))
