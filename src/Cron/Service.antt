-- ===== src/Cron/Service.antt =====
-- `CronService` of zen_claw/cron/service.py over a loaded store. Identifiers of jobs are taken to be
-- different, so that a write to a job object is a write to the first job with its identifier. What a
-- job's callback does outside the service is one outcome, no error or its text. The timer is the
-- delay of the tick that waits; the JSON file is not modelled.
use zen_claw.Base.{
  ℕ, suc, ◌-◌, min, String, Bool, true, false, not, ◌&&◌, Option, none, some, List, [], ◌∷◌, ◌==◌,
  leb, eqb, keep, update_first, if◌then◌else◌,
}
use zen_claw.Cron.Jobs.{at, every, cron, CronJob, Croniter, compute_next_run}

pub record CronService : Type 0 where
  pub jobs : List CronJob
  pub running : Bool
  pub timer : Option ℕ

-- `j.state.next_run_at_ms`, where 0 counts as nothing
unfoldable pub next_run : CronJob → Option ℕ
next_run j = elim j.state.next_run_at_ms [ none ↦ none | some t ↦ if eqb t 0 then none else some t ]

unfoldable pub wake_time : CronJob → Option ℕ
wake_time j = if j.enabled then next_run j else none

abbrev pub earlier : Option ℕ → Option ℕ → Option ℕ
earlier none o = o
earlier (some t) none = some t
earlier (some t) (some u) = some (min t u)

-- `_get_next_wake_ms`
unfoldable pub get_next_wake_ms : List CronJob → Option ℕ
get_next_wake_ms [] = none
get_next_wake_ms (j ∷ js) = earlier (wake_time j) (get_next_wake_ms js)

-- `_arm_timer`
unfoldable pub arm_timer : CronService → ℕ → CronService
arm_timer s now = record s {
  timer = elim (get_next_wake_ms s.jobs) [
    | none ↦ none
    | some next_wake ↦ if s.running then some (next_wake - now) else none
  ];
}

abbrev pub with_next : CronJob → Option ℕ → CronJob
with_next job next = record job { state = record job.state { next_run_at_ms = next } }

-- `_recompute_next_runs`; croniter is asked anew for each job
unfoldable pub recompute_next_runs : (CronJob → Croniter) → ℕ → List CronJob → List CronJob
recompute_next_runs ask now [] = []
recompute_next_runs ask now (j ∷ js) =
    let rest = recompute_next_runs ask now js in
    if j.enabled then with_next j (compute_next_run (ask j) j.schedule now) ∷ rest else j ∷ rest

unfoldable pub start : CronService → (CronJob → Croniter) → ℕ → ℕ → CronService
start s ask now arm_ms =
    arm_timer (record s { running = true; jobs = recompute_next_runs ask now s.jobs }) arm_ms

unfoldable pub stop : CronService → CronService
stop s = record s { running = false; timer = none }

unfoldable pub has_id : String → CronJob → Bool
has_id job_id j = j.id == job_id

-- One execution of a job: the clock at its start, at its end and at the computation of its next run,
-- what its callback raised, and what croniter answers.
pub record Run : Type 0 where
  pub start_ms : ℕ
  pub raised : Option String
  pub end_ms : ℕ
  pub next_ms : ℕ
  pub ask : Croniter

abbrev outcome : Option String → String
outcome none = "ok"
outcome (some message) = "error"

unfoldable pub is_one_shot : CronJob → Bool
is_one_shot job = elim job.schedule.kind [ at ↦ true | every ↦ false | cron ↦ false ]

-- what `_execute_job` writes to a job that stays
unfoldable pub executed : Run → CronJob → CronJob
executed r job = record job {
  enabled = if is_one_shot job then false else job.enabled;
  state = record {
    next_run_at_ms =
        if is_one_shot job then none else compute_next_run r.ask job.schedule r.next_ms;
    last_run_at_ms = some r.start_ms;
    last_status = some (outcome r.raised);
    last_error = r.raised;
  };
  updated_at_ms = r.end_ms;
}

-- `_execute_job`
unfoldable pub execute_job : List CronJob → CronJob → Run → List CronJob
execute_job jobs job r =
    if is_one_shot job && job.delete_after_run
    then keep (λ j. not (has_id job.id j)) jobs
    else update_first (has_id job.id) (executed r) jobs

-- the tests of `_on_timer`
unfoldable pub is_due : ℕ → CronJob → Bool
is_due now j = j.enabled && elim (next_run j) [ none ↦ false | some t ↦ leb t now ]

-- the jobs are run in turn, the i-th of them by `runs i`
unfoldable pub execute_all : List CronJob → List CronJob → (ℕ → Run) → ℕ → List CronJob
execute_all jobs [] runs i = jobs
execute_all jobs (job ∷ due) runs i = execute_all (execute_job jobs job (runs i)) due runs (suc i)

-- `_on_timer`
unfoldable pub on_timer : CronService → ℕ → (ℕ → Run) → ℕ → CronService
on_timer s now runs arm_ms =
    arm_timer (record s { jobs = execute_all s.jobs (keep (is_due now) s.jobs) runs 0 }) arm_ms

-- `j.state.next_run_at_ms or float("inf")`
unfoldable pub runs_before : CronJob → CronJob → Bool
runs_before a b = elim (next_run a) [
  | none ↦ elim (next_run b) [ none ↦ true | some u ↦ false ]
  | some t ↦ elim (next_run b) [ none ↦ true | some u ↦ leb t u ]
]

unfoldable pub insert_by_next : CronJob → List CronJob → List CronJob
insert_by_next j [] = j ∷ []
insert_by_next j (k ∷ ks) = if runs_before j k then j ∷ k ∷ ks else k ∷ insert_by_next j ks

unfoldable pub sort_by_next : List CronJob → List CronJob
sort_by_next [] = []
sort_by_next (j ∷ js) = insert_by_next j (sort_by_next js)

unfoldable pub list_jobs : CronService → Bool → List CronJob
list_jobs s include_disabled =
    sort_by_next (if include_disabled then s.jobs else keep (λ j. j.enabled) s.jobs)
