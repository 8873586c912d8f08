-- ===== src/Sidecars/Listing.antt =====
-- `collect_sidecar_status` of zen_claw/runtime/sidecar_supervisor.py, for one sidecar, and the helpers
-- that it calls. Times are in seconds here, as in the state files.
use zen_claw.Base.{
  ℕ, suc, ◌-◌, ◌/◌, ◌%◌, String, ◌==◌, Bool, true, false, not, ◌&&◌, Option, none, some, ltb,
  if◌then◌else◌,
}
use Prim.Native.String.{◌++◌}
use zen_claw.Base.Text.{strip}
use zen_claw.Node.Payload.{decimal}

-- `_is_pid_alive`; `signalled` says whether signal 0 reaches the process
unfoldable pub is_pid_alive : Option ℕ → Bool → Bool
is_pid_alive none signalled = false
is_pid_alive (some pid) signalled = ltb 0 pid && signalled

-- `f"{n:02d}"`
unfoldable pub two_digits : ℕ → String
two_digits n = if ltb n 10 then "0" ++ decimal (suc n) n else decimal (suc n) n

abbrev pub clock_of : ℕ → String
clock_of rem =
    two_digits (rem / 3600) ++ ":" ++ two_digits (rem % 3600 / 60) ++ ":" ++ two_digits (rem % 60)

-- `_format_uptime`, for seconds that are not negative
unfoldable pub format_uptime : ℕ → String
format_uptime seconds =
    let days = seconds / 86400 in
    let clock = clock_of (seconds % 86400) in
    if ltb 0 days then decimal (suc days) days ++ "d " ++ clock else clock

-- What a state file holds that can be read; 0 stands for a missing number.
pub record State : Type 0 where
  pub pid : ℕ
  pub started_at_unix : ℕ
  pub managed : Bool
  pub status : String

-- a row of the listing
pub record Row : Type 0 where
  pub status : String
  pub managed : Bool
  pub pid : Option ℕ
  pub uptime : String
  pub health : Bool

abbrev pub some_above : ℕ → Option ℕ
some_above n = if ltb 0 n then some n else none

unfoldable pub status_of : Bool → Bool → String → String
status_of pid_alive healthy state_status =
    if pid_alive
    then "running"
    else if healthy
    then "external_healthy"
    else if not (state_status == "") && not (state_status == "stopped")
    then state_status
    else "stopped"

-- the row of a state; `answers` is the health check, which is asked where the process is not alive
unfoldable pub row_of : State → Bool → Bool → ℕ → Row
row_of state signalled answers now =
    let pid_alive = is_pid_alive (some_above state.pid) signalled in
    let healthy = if pid_alive then true else answers in
    record {
      status = status_of pid_alive healthy (strip state.status);
      managed = state.managed;
      pid = if pid_alive then some_above state.pid else none;
      uptime =
          if ltb 0 state.started_at_unix && pid_alive
          then format_uptime (now - state.started_at_unix)
          else "-";
      health = healthy;
    }

-- no state file
abbrev pub no_state : State
no_state = record { pid = 0; started_at_unix = 0; managed = false; status = "" }

unfoldable pub collect_sidecar_status : Option State → Bool → Bool → ℕ → Row
collect_sidecar_status none signalled answers now = row_of no_state signalled answers now
collect_sidecar_status (some state) signalled answers now = row_of state signalled answers now
