-- ===== src/Cron/Limits.antt =====
-- How many jobs a session of zen_claw/cron/service.py can have.
use zen_claw.Base.{
  ℕ, ◌+◌, ◌≤◌, String, ◌≡◌, false, some, [], ◌∷◌, ◌++◌, ◌==◌, arith, eq_iff, count, count-append,
  length-keep,
}
use zen_claw.Cron.Jobs.{CronJob, Croniter}
use zen_claw.Cron.Service.{CronService, arm_timer}
use zen_claw.Cron.Edits.{JobRequest, is_of_session, is_full, make_payload, make_job, add_job}

add_job_added :
    (s : CronService) (r : JobRequest) (ask : Croniter) (now arm_ms : ℕ) (job : CronJob)
    → (add_job s r ask now arm_ms).1 ≡ some job
    → (is_full s.jobs r.channel r.to r.max_jobs ≡ false)
      × ((add_job s r ask now arm_ms).0.jobs ≡ s.jobs ++ make_job ask r now ∷ [])
unfolding add_job arm_timer
add_job_added s r ask now arm_ms job h = ground (arith, h)

-- A job that is added for a session, a channel and a receiver that are not empty, makes the jobs of
-- that session one more, and leaves them within the limit that the call gives.
pub add_job-is_full :
    (s : CronService) (r : JobRequest) (ask : Croniter) (now arm_ms : ℕ) (channel to : String)
    (job : CronJob)
    → r.channel ≡ some channel
    → r.to ≡ some to
    → (channel == "") ≡ false
    → (to == "") ≡ false
    → (add_job s r ask now arm_ms).1 ≡ some job
    → (count (is_of_session channel to) (add_job s r ask now arm_ms).0.jobs
        ≡ count (is_of_session channel to) s.jobs + 1)
      × (count (is_of_session channel to) (add_job s r ask now arm_ms).0.jobs ≤ r.max_jobs)
add_job-is_full s r ask now arm_ms channel to job c t c_some t_some h =
    let (room, jobs) = add_job_added s r ask now arm_ms job h in
    let new = make_job ask r now in
    let counted = count-append (is_of_session channel to) s.jobs (new ∷ []) in
    let within = length-keep (is_of_session channel to) s.jobs in
    rw jobs (
      unfold count is_of_session make_job make_payload is_full in
      ground
        (arith, room, counted, within, c, t, c_some, t_some, eq_iff channel channel, eq_iff to to))
