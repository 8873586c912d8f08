-- ===== src/Sidecars/Supervisor.antt =====
-- `SidecarSupervisor` of zen_claw/runtime/sidecar_supervisor.py, for one sidecar: its dicts are by
-- name, and each name is handled by itself. The clock is read in milliseconds. What the processes, the
-- health checks and the file system answer in one round is the record Probe.
use zen_claw.Base.{
  ℕ, zero, suc, ◌+◌, ◌-◌, ◌*◌, ◌/◌, Bool, true, false, not, ◌&&◌, Option, none, some, List, [], ◌∷◌,
  ◌++◌, max, min, ltb, leb, length, keep, if◌then◌else◌,
}

pub record Settings : Type 0 where
  pub fail_window_sec : ℕ
  pub fail_threshold : ℕ
  pub circuit_open_sec : ℕ

unfoldable pub settings : ℕ → ℕ → ℕ → Settings
settings window threshold open_sec = record {
  fail_window_sec = max 1 window;
  fail_threshold = max 1 threshold;
  circuit_open_sec = max 1 open_sec;
}

-- The entries that the dicts hold for the sidecar; a missing number is 0.
pub record Watched : Type 0 where
  pub proc : Option ℕ
  pub started_at : Option ℕ
  pub attempts : ℕ
  pub next_retry_at : ℕ
  pub failure_history : List ℕ
  pub circuit_open_until : ℕ

abbrev pub new_watched : Watched
new_watched = record {
  proc = none;
  started_at = none;
  attempts = 0;
  next_retry_at = 0;
  failure_history = [];
  circuit_open_until = 0;
}

-- One round: the time at its start and, if the start fails, then; whether the process known still
-- runs; the first and the second health check; whether a launcher and the directory are there; the
-- process that a launch gives, when, and whether it becomes healthy in the twenty checks.
pub record Probe : Type 0 where
  pub now : ℕ
  pub failed_at : ℕ
  pub proc_alive : Bool
  pub healthy : Bool
  pub healthy_then : Bool
  pub has_launcher : Bool
  pub has_directory : Bool
  pub new_pid : ℕ
  pub launched_at : ℕ
  pub came_up : Bool

pub data Status : Type 0 where
  circuit_open backoff_wait : ℕ → Status
  running external_healthy launcher_not_found binary_path_missing start_failed stopped : Status

-- what `_write_state` writes
pub record StateFile : Type 0 where
  pub managed : Bool
  pub pid : Option ℕ
  pub started_at_unix : Option ℕ
  pub status : Status

-- the calls of `Popen` and of `_terminate_process`
pub data Action : Type 0 where
  terminated spawned : ℕ → Action

pub record Round : Type 0 where
  pub watched : Watched
  pub written : StateFile
  pub actions : List Action

-- a state file without a process
abbrev pub idle : Status → StateFile
idle status = record { managed = true; pid = none; started_at_unix = none; status = status }

-- `2 ** n`
unfoldable pub two_to : ℕ → ℕ
two_to zero = 1
two_to (suc n) = 2 * two_to n

-- the delay before the next start, in milliseconds
unfoldable pub delay_of : ℕ → ℕ
delay_of attempts = 1000 * min 30 (two_to (min (attempts - 1) 5))

-- `now - ts <= self._fail_window_sec`
unfoldable pub is_recent : Settings → ℕ → ℕ → Bool
is_recent cfg now ts = leb now (ts + 1000 * cfg.fail_window_sec)

-- `_record_start_failure`
unfoldable pub record_start_failure : Settings → Watched → ℕ → Watched
record_start_failure cfg w now =
    let attempts = w.attempts + 1 in
    let history = keep (is_recent cfg now) (w.failure_history ++ now ∷ []) in
    record w {
      attempts = attempts;
      next_retry_at = now + delay_of attempts;
      failure_history = history;
      circuit_open_until =
          if leb cfg.fail_threshold (length history)
          then now + 1000 * cfg.circuit_open_sec
          else w.circuit_open_until;
    }

abbrev pub failed : Settings → Watched → Probe → Status → List Action → Round
failed cfg w p status actions = record {
  watched = record_start_failure cfg w p.failed_at;
  written = idle status;
  actions = actions;
}

-- the launch of a process, and the twenty checks
unfoldable pub launch : Settings → Watched → Probe → List Action → Round
launch cfg w p actions =
    let up = record w { proc = some p.new_pid; started_at = some p.launched_at } in
    if p.came_up
    then record {
      watched = record up {
        attempts = 0;
        next_retry_at = 0;
        failure_history = [];
        circuit_open_until = 0;
      };
      written = record {
        managed = true;
        pid = some p.new_pid;
        started_at_unix = some p.launched_at;
        status = running;
      };
      actions = actions ++ spawned p.new_pid ∷ [];
    }
    else failed cfg up p start_failed (actions ++ spawned p.new_pid ∷ terminated p.new_pid ∷ [])

unfoldable pub start_process : Settings → Watched → Probe → List Action → Round
start_process cfg w p actions =
    if not p.has_launcher
    then failed cfg w p launcher_not_found actions
    else if not p.has_directory
    then failed cfg w p binary_path_missing actions
    else launch cfg w p actions

abbrev pub is_running : Option ℕ → Bool → Bool
is_running none alive = false
is_running (some pid) alive = alive

-- the process that runs but is not healthy is terminated
abbrev pub cleanup : Option ℕ → Bool → List Action
cleanup none alive = []
cleanup (some pid) alive = if alive then terminated pid ∷ [] else []

-- `_ensure_running`
unfoldable pub ensure_running : Settings → Watched → Probe → Round
ensure_running cfg w p =
    if ltb p.now w.circuit_open_until
    then record {
      watched = w;
      written = idle (circuit_open ((w.circuit_open_until - p.now) / 1000));
      actions = [];
    }
    else if ltb p.now w.next_retry_at
    then record {
      watched = w;
      written = idle (backoff_wait ((w.next_retry_at - p.now) / 1000));
      actions = [];
    }
    else if is_running w.proc p.proc_alive && p.healthy
    then record {
      watched = w;
      written = record {
        managed = true;
        pid = w.proc;
        started_at_unix = w.started_at;
        status = running;
      };
      actions = [];
    }
    else if p.healthy_then
    then record {
      watched = w;
      written = record {
        managed = false;
        pid = none;
        started_at_unix = none;
        status = external_healthy;
      };
      actions = [];
    }
    else start_process cfg w p (cleanup w.proc p.proc_alive)

abbrev stopped_file : Option ℕ → Option StateFile
stopped_file none = none
stopped_file (some pid) = some (idle stopped)

-- `stop`; `alive` says whether the process still runs
unfoldable pub stop : Watched → Bool → Watched × Option StateFile × List Action
stop w alive =
    (record w { proc = none; started_at = none }, stopped_file w.proc, cleanup w.proc alive)
