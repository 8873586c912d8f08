-- ===== src/Cron/Ticks.antt =====
-- What one tick of zen_claw/cron/service.py does to the jobs that are due.
use zen_claw.Base.{
  ℕ, suc, ◌≤◌, String, ◌≡◌, refl, true, false, not, ◌&&◌, List, [], ◌∷◌, arith, eq_iff, any, keep,
  update_first, All, Bool-cases, Option-cases, inl, inr,
}
use zen_claw.Cron.Jobs.{CronJob, compute_next_run}
use zen_claw.Cron.Service.{
  CronService, Run, next_run, is_one_shot, executed, has_id, execute_job, execute_all, is_due,
  on_timer, arm_timer,
}
use zen_claw.Cron.Timing.{IsAhead, compute_next_run-IsAhead}

-- No two jobs have the same identifier.
abbrev pub IsUnique : List CronJob → Type 0
IsUnique [] = Unit
IsUnique (j ∷ js) = (any (has_id j.id) js ≡ false) × IsUnique js

-- Each execution computes the next run at `now` or later, and croniter answers with times after it.
abbrev pub IsPrompt : ℕ → (ℕ → Run) → Type 0
IsPrompt now runs = (i : ℕ) → (now ≤ (runs i).next_ms) × IsAhead (runs i).ask (runs i).next_ms

-- the jobs of the list that are due are among `due`
abbrev IsListed : ℕ → List CronJob → CronJob → Type 0
IsListed now due j = is_due now j ≡ true → any (has_id j.id) due ≡ true

executed-next_run :
    (r : Run) (now : ℕ) (j : CronJob)
    → now ≤ r.next_ms
    → IsAhead r.ask r.next_ms
    → is_due now (executed r j) ≡ false
unfolding is_due executed next_run
executed-next_run r now j later ahead =
    elim (Option-cases (compute_next_run r.ask j.schedule r.next_ms)) [
      | inl e ↦ ground (arith, e)
      | inr (t, e) ↦
          ground (arith, e, later, compute_next_run-IsAhead r.ask j.schedule r.next_ms t ahead e)
    ]

any-update_first :
    (r : Run) (id x : String) (js : List CronJob)
    → any (has_id x) (update_first (has_id id) (executed r) js) ≡ any (has_id x) js
unfolding any update_first has_id executed
any-update_first r id x [] = refl
any-update_first r id x (j ∷ js) = ground (arith, any-update_first r id x js)

any-keep :
    (id x : String) (js : List CronJob)
    → any (has_id x) js ≡ false
    → any (has_id x) (keep (λ j. not (has_id id j)) js) ≡ false
unfolding any keep
any-keep id x [] h = refl
any-keep id x (j ∷ js) h = ground (arith, any-keep id x js)

IsUnique-update_first :
    (r : Run) (id : String) (js : List CronJob)
    → IsUnique js
    → IsUnique (update_first (has_id id) (executed r) js)
unfolding update_first executed
IsUnique-update_first r id [] h = tt
IsUnique-update_first r id (j ∷ js) h = elim (Bool-cases (has_id id j)) [
  | inl e ↦ rw e h
  | inr e ↦ rw e (rw (any-update_first r id j.id js) h.0, IsUnique-update_first r id js h.1)
]

IsUnique-keep :
    (id : String) (js : List CronJob) → IsUnique js → IsUnique (keep (λ j. not (has_id id j)) js)
unfolding keep
IsUnique-keep id [] h = tt
IsUnique-keep id (j ∷ js) h = elim (Bool-cases (has_id id j)) [
  | inl e ↦ rw e (IsUnique-keep id js h.1)
  | inr e ↦ rw e (any-keep id j.id js h.0, IsUnique-keep id js h.1)
]

IsUnique-execute_job :
    (js : List CronJob) (d : CronJob) (r : Run) → IsUnique js → IsUnique (execute_job js d r)
unfolding execute_job
IsUnique-execute_job js d r h = elim (Bool-cases (is_one_shot d && d.delete_after_run)) [
  | inl e ↦ rw e (IsUnique-keep d.id js h)
  | inr e ↦ rw e (IsUnique-update_first r d.id js h)
]

-- a row that is listed and is not the first of the list is in the rest
IsListed-other :
    (now : ℕ) (d : CronJob) (due : List CronJob) (j : CronJob)
    → has_id d.id j ≡ false
    → IsListed now (d ∷ due) j
    → IsListed now due j
unfolding any has_id
IsListed-other now d due j other h is = ground (arith, h is, eq_iff d.id j.id, eq_iff j.id d.id)

IsListed-others :
    (now : ℕ) (d : CronJob) (due js : List CronJob)
    → any (has_id d.id) js ≡ false
    → All (IsListed now (d ∷ due)) js
    → All (IsListed now due) js
unfolding any
IsListed-others now d due [] none_is h = tt
IsListed-others now d due (j ∷ js) none_is h = (
  IsListed-other now d due j (ground (arith, none_is)) h.0,
  IsListed-others now d due js (ground (arith, none_is)) h.1,
)

All-update_due :
    (r : Run) (now : ℕ) (d : CronJob) (due js : List CronJob)
    → now ≤ r.next_ms
    → IsAhead r.ask r.next_ms
    → IsUnique js
    → All (IsListed now (d ∷ due)) js
    → All (IsListed now due) (update_first (has_id d.id) (executed r) js)
unfolding update_first
All-update_due r now d due [] later ahead unique h = tt
All-update_due r now d due (j ∷ js) later ahead unique h = elim (Bool-cases (has_id d.id j)) [
  | inl e ↦
      let same : j.id ≡ d.id = unfold has_id in ground (arith, e, eq_iff j.id d.id) in
      rw e (
        λ is. ground (arith, is, executed-next_run r now j later ahead),
        IsListed-others now d due js (rw same at unique.0) h.1,
      )
  | inr e ↦
      rw e
        (IsListed-other now d due j e h.0, All-update_due r now d due js later ahead unique.1 h.1)
]

All-keep_due :
    (now : ℕ) (d : CronJob) (due js : List CronJob)
    → All (IsListed now (d ∷ due)) js
    → All (IsListed now due) (keep (λ j. not (has_id d.id j)) js)
unfolding keep
All-keep_due now d due [] h = tt
All-keep_due now d due (j ∷ js) h = elim (Bool-cases (has_id d.id j)) [
  | inl e ↦ rw e (All-keep_due now d due js h.1)
  | inr e ↦ rw e (IsListed-other now d due j e h.0, All-keep_due now d due js h.1)
]

All-execute_job :
    (r : Run) (now : ℕ) (d : CronJob) (due js : List CronJob)
    → now ≤ r.next_ms
    → IsAhead r.ask r.next_ms
    → IsUnique js
    → All (IsListed now (d ∷ due)) js
    → All (IsListed now due) (execute_job js d r)
unfolding execute_job
All-execute_job r now d due js later ahead unique h =
    elim (Bool-cases (is_one_shot d && d.delete_after_run)) [
      | inl e ↦ rw e (All-keep_due now d due js h)
      | inr e ↦ rw e (All-update_due r now d due js later ahead unique h)
    ]

All-listed_none :
    (now : ℕ) (js : List CronJob) → All (IsListed now []) js → any (is_due now) js ≡ false
unfolding any
All-listed_none now [] h = refl
All-listed_none now (j ∷ js) h = elim (Bool-cases (is_due now j)) [
  | inl e ↦ ground (arith, h.0 e)
  | inr e ↦ rw e (All-listed_none now js h.1)
]

execute_all_clears :
    (now : ℕ) (runs : ℕ → Run) (i : ℕ) (due js : List CronJob)
    → IsPrompt now runs
    → IsUnique js
    → All (IsListed now due) js
    → any (is_due now) (execute_all js due runs i) ≡ false
unfolding execute_all
execute_all_clears now runs i [] js prompt unique h = All-listed_none now js h
execute_all_clears now runs i (d ∷ due) js prompt unique h =
    execute_all_clears now runs (suc i) due (execute_job js d (runs i)) prompt
      (IsUnique-execute_job js d (runs i) unique)
      (All-execute_job (runs i) now d due js (prompt i).0 (prompt i).1 unique h)

any-keep_due :
    (now : ℕ) (x : String) (js : List CronJob) (j : CronJob)
    → any (has_id x) (keep (is_due now) js) ≡ true
    → any (has_id x) (keep (is_due now) (j ∷ js)) ≡ true
unfolding any keep
any-keep_due now x js j h = ground (arith, h)

-- what the snapshot of the due jobs lists
All-snapshot :
    (now : ℕ) (all_jobs js : List CronJob)
    → ((x : String)
        → any (has_id x) (keep (is_due now) js) ≡ true
        → any (has_id x) (keep (is_due now) all_jobs) ≡ true)
    → All (IsListed now (keep (is_due now) all_jobs)) js
All-snapshot now all_jobs [] h = tt
All-snapshot now all_jobs (j ∷ js) h = (
  λ is. h j.id (unfold any keep has_id in ground (arith, is, eq_iff j.id j.id)),
  All-snapshot now all_jobs js (λ x e. h x (any-keep_due now x js j e)),
)

-- If no two jobs have the same identifier, each execution computes the next run at the time of the
-- tick or later, and croniter answers with times after that, then when the tick is over no job is
-- due any more at the time at which it began.
pub on_timer_clears :
    (s : CronService) (now arm_ms : ℕ) (runs : ℕ → Run)
    → IsPrompt now runs
    → IsUnique s.jobs
    → any (is_due now) (on_timer s now runs arm_ms).jobs ≡ false
unfolding on_timer arm_timer
on_timer_clears s now arm_ms runs prompt unique =
    execute_all_clears now runs 0 (keep (is_due now) s.jobs) s.jobs prompt unique
      (All-snapshot now s.jobs s.jobs (λ x e. e))
