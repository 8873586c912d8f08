-- ===== src/Sidecars/Tests.antt =====
-- Runs of the supervisor of a sidecar, and an instance of its theorem.
use zen_claw.Base.{
  ℕ, ◌+◌, ◌≤◌, ◌≡◌, refl, true, false, some, none, List, [], ◌∷◌, keep, any, arith, All, map,
}
use zen_claw.Sidecars.Supervisor.{
  Settings, settings, new_watched, Probe, two_to, delay_of, is_recent, record_start_failure, launch,
  start_process, ensure_running, stop, terminated,
}
use zen_claw.Base.Text.{strip}
use zen_claw.Node.Payload.{decimal}
use zen_claw.Sidecars.Listing.{
  is_pid_alive, two_digits, format_uptime, status_of, row_of, collect_sidecar_status,
}
use zen_claw.Sidecars.Breaker.{run, log_round, log_start, earliest, spawns, IsForward, earliest-run}

-- three failures within two minutes open the circuit for one
abbrev three : Settings
three = record { fail_window_sec = 120; fail_threshold = 3; circuit_open_sec = 60 }

-- a round in which the launch does not become healthy
abbrev fails_at : ℕ → Probe
fails_at t = record {
  now = t;
  failed_at = t + 5000;
  proc_alive = false;
  healthy = false;
  healthy_then = false;
  has_launcher = true;
  has_directory = true;
  new_pid = 7;
  launched_at = t;
  came_up = false;
}

-- the second round is too early, and the last finds the circuit open
abbrev rounds : List Probe
rounds = map fails_at (0 ∷ 5500 ∷ 6000 ∷ 13000 ∷ 70000 ∷ [])

rounds_log : (run three new_watched [] rounds).1 ≡ 18000 ∷ 11000 ∷ 5000 ∷ []
unfolding run ensure_running start_process launch log_round log_start record_start_failure is_recent
    delay_of two_to keep
rounds_log = refl

rounds_open : (run three new_watched [] rounds).0.circuit_open_until ≡ 78000
unfolding run ensure_running start_process launch log_round log_start record_start_failure is_recent
    delay_of two_to keep
rounds_open = refl

settings_run :
    settings 0 0 5 ≡ record { fail_window_sec = 1; fail_threshold = 1; circuit_open_sec = 5 }
unfolding settings
settings_run = refl

stopped_run : (stop (run three new_watched [] rounds).0 true).2 ≡ terminated 7 ∷ []
unfolding run ensure_running start_process launch log_round log_start record_start_failure is_recent
    delay_of two_to keep stop
stopped_run = refl

fails_at-IsForward : (ts : List ℕ) → All IsForward (map fails_at ts)
fails_at-IsForward [] = tt
fails_at-IsForward (t ∷ ts) = (omega arith, fails_at-IsForward ts)

earliest-run_example : let (w, log) = run three new_watched [] rounds in earliest three log ≤ 78000
unfolding run ensure_running start_process launch log_round log_start record_start_failure is_recent
    delay_of two_to keep spawns any
earliest-run_example =
    earliest-run three rounds (fails_at 78000)
      (fails_at-IsForward (0 ∷ 5500 ∷ 6000 ∷ 13000 ∷ 70000 ∷ [])) refl

uptime_runs : format_uptime 90061 ≡ "1d 01:01:01"
unfolding format_uptime two_digits decimal
uptime_runs = refl

-- a process that is gone leaves the status that was written last
listing_runs :
    collect_sidecar_status
      (some record { pid = 7; started_at_unix = 100; managed = true; status = "start_failed " })
      false
      false
      160
    ≡ record { status = "start_failed"; managed = true; pid = none; uptime = "-"; health = false }
unfolding collect_sidecar_status row_of status_of is_pid_alive strip
listing_runs = refl
