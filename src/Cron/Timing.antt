-- ===== src/Cron/Timing.antt =====
-- When the timer of zen_claw/cron/service.py ticks, and that a next run lies ahead.
use zen_claw.Base.{
  ℕ, ◌+◌, ◌-◌, ◌≤◌, ◌<◌, String, ◌≡◌, refl, true, false, Option, none, some, List, [], ◌∷◌, ◌==◌,
  arith, leb, any, Bool-cases, Option-cases, inl, inr,
}
use zen_claw.Cron.Jobs.{
  CronSchedule, CronJob, Croniter, next_at, next_every, next_cron, compute_next_run,
}
use zen_claw.Cron.Service.{CronService, wake_time, get_next_wake_ms, arm_timer, is_due}

-- croniter answers with times after `now`
abbrev pub IsAhead : Croniter → ℕ → Type 0
IsAhead ask now = (expr : String) (t : ℕ) → ask expr ≡ some t → now < t

next_cron-IsAhead :
    (ask : Croniter) (expr : Option String) (now t : ℕ)
    → IsAhead ask now
    → next_cron ask expr ≡ some t
    → now < t
unfolding next_cron
next_cron-IsAhead ask none now t ahead h = ground arith
next_cron-IsAhead ask (some expr) now t ahead h = elim (Bool-cases (expr == "")) [
  | inl e ↦ ground (arith, e, h)
  | inr e ↦ ahead expr t (rw e at h)
]

-- A next run lies after the time at which it is computed, of whatever kind the schedule is, if
-- croniter answers with times after it.
pub compute_next_run-IsAhead :
    (ask : Croniter) (schedule : CronSchedule) (now t : ℕ)
    → IsAhead ask now
    → compute_next_run ask schedule now ≡ some t
    → now < t
unfolding compute_next_run next_at next_every
compute_next_run-IsAhead ask schedule now t ahead h =
    ground (arith, h, next_cron-IsAhead ask schedule.expr now t ahead)

is_due_wake :
    (j : CronJob) (t : ℕ) → is_due t j ≡ elim (wake_time j) [ none ↦ false | some w ↦ leb w t ]
unfolding is_due wake_time
is_due_wake j t = ground arith

-- a job is due at a time from the earliest wake time on, and only then
due_from_wake :
    (js : List CronJob) (t : ℕ)
    → any (is_due t) js ≡ elim (get_next_wake_ms js) [ none ↦ false | some w ↦ leb w t ]
unfolding any get_next_wake_ms
due_from_wake [] t = refl
due_from_wake (j ∷ js) t = ground (arith, is_due_wake j t, due_from_wake js t)

-- What is claimed of the timer: if it is off no job is ever due, and if a tick waits then a job is
-- due at that tick and none is due before it.
abbrev pub IsTimely : Option ℕ → List CronJob → ℕ → Type 0
IsTimely none jobs now = (t : ℕ) → any (is_due t) jobs ≡ false
IsTimely (some delay) jobs now =
    (any (is_due (now + delay)) jobs ≡ true)
    × ((t : ℕ) → now ≤ t → t < now + delay → any (is_due t) jobs ≡ false)

arm_timer_off :
    (s : CronService) (now : ℕ) → get_next_wake_ms s.jobs ≡ none → (arm_timer s now).timer ≡ none
unfolding arm_timer
arm_timer_off s now e = ground (arith, e)

arm_timer_on :
    (s : CronService) (now w : ℕ)
    → s.running ≡ true
    → get_next_wake_ms s.jobs ≡ some w
    → (arm_timer s now).timer ≡ some (w - now)
unfolding arm_timer
arm_timer_on s now w on e = ground (arith, e, on)

-- While the service runs, arming the timer leaves it off only if no enabled job has a next run;
-- otherwise the tick comes when the first job is due, at once if one is due already.
pub arm_timer-IsTimely :
    (s : CronService) (now : ℕ) → s.running ≡ true → IsTimely (arm_timer s now).timer s.jobs now
arm_timer-IsTimely s now on = elim (Option-cases (get_next_wake_ms s.jobs)) [
  | inl e ↦ rw (arm_timer_off s now e) (λ t. ground (arith, e, due_from_wake s.jobs t))
  | inr (w, e) ↦ rw (arm_timer_on s now w on e) (
    ground (arith, e, due_from_wake s.jobs (now + (w - now))),
    λ t later before. ground (arith, e, later, before, due_from_wake s.jobs t),
  )
]
