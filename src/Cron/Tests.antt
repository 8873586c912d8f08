-- ===== src/Cron/Tests.antt =====
-- A small service.
use zen_claw.Base.{
  ◌+◌, ◌≤◌, count, ℕ, arith, ◌≡◌, refl, true, false, none, some, [], ◌∷◌, any, keep, find_first,
  update_first, map,
}
use zen_claw.Base.Int.{pos}
use zen_claw.Base.Text.{strip, upper}
use zen_claw.Cron.Jobs.{
  CronSchedule, Croniter, at, every, next_at, next_every, next_cron, compute_next_run,
}
use zen_claw.Cron.Service.{
  CronService, Run, next_run, wake_time, get_next_wake_ms, arm_timer, recompute_next_runs, start,
  is_one_shot, executed, has_id, execute_job, execute_all, is_due, on_timer,
}
use zen_claw.Cron.Edits.{
  JobRequest, stripped, at_least, at_least_given, make_payload, make_job, is_of_session, is_full,
  add_job, enable_job, set_enabled, run_job,
}
use zen_claw.Cron.Timing.{IsTimely, arm_timer-IsTimely}
use zen_claw.Cron.Ticks.{on_timer_clears}
use zen_claw.Cron.Limits.{add_job-is_full}

abbrev ask : Croniter
ask e = none

abbrev hourly : CronSchedule
hourly = record {
  kind = every;
  at_ms = none;
  every_ms = some (pos 3600000);
  expr = none;
  tz = none;
}

abbrev once : CronSchedule
once = record { kind = at; at_ms = some (pos 5000); every_ms = none; expr = none; tz = none }

abbrev request : JobRequest
request = record {
  name = "report";
  schedule = hourly;
  message = "hi";
  deliver = true;
  channel = some "tg";
  to = some "me";
  target_url = none;
  target_method = "";
  target_headers = [];
  target_timeout_sec = pos 0;
  knowledge_source = none;
  knowledge_notebook = none;
  knowledge_retention_max_documents = none;
  knowledge_retention_max_age_days = none;
  crawler_source_name = none;
  crawler_source_url = none;
  crawler_notebook = none;
  crawler_selector = none;
  crawler_use_browser = false;
  crawler_max_chars = some (pos 7);
  crawler_metadata_json = none;
  crawler_tenant_id = none;
  crawler_store_backend = none;
  delete_after_run = false;
  max_jobs = 2;
  id = "a";
}

abbrev idle : CronService
idle = record { jobs = []; running = true; timer = none }

abbrev two : CronService
two =
    (add_job (add_job idle request ask 1000 1000).0 (record request { schedule = once; id = "b" })
      ask 1000 1001).0

program : Unit {0}
unfolding any keep count find_first update_first strip upper next_at next_every next_cron
    compute_next_run next_run wake_time get_next_wake_ms arm_timer recompute_next_runs start
    is_one_shot executed has_id execute_job execute_all is_due on_timer stripped at_least
    at_least_given make_payload make_job is_of_session is_full add_job enable_job set_enabled
    run_job
program = tt

two_timer : two.timer ≡ some 3999
unfolding program
two_timer = refl

third_refused : (add_job two (record request { id = "c" }) ask 1002 1002).1 ≡ none
unfolding program
third_refused = refl

abbrev runs : ℕ → Run
runs i = record { start_ms = 5000; raised = none; end_ms = 5001; next_ms = 5002; ask = ask }

tick_runs :
    map (λ j. j.state.next_run_at_ms) (on_timer two 5000 runs 5003).jobs ≡ some 3601000 ∷ none ∷ []
unfolding program
tick_runs = refl

arm_timer-IsTimely_example : IsTimely (arm_timer two 1001).timer two.jobs 1001
unfolding program
arm_timer-IsTimely_example = arm_timer-IsTimely two 1001 refl

on_timer_clears_example : any (is_due 5000) (on_timer two 5000 runs 5003).jobs ≡ false
unfolding program
on_timer_clears_example =
    on_timer_clears two 5000 5003 runs (λ i. (omega arith, λ e t h. ground (arith, h)))
      (refl, (refl, tt))

add_job-is_full_example :
    (count (is_of_session "tg" "me") (add_job idle request ask 1000 1000).0.jobs
      ≡ count (is_of_session "tg" "me") idle.jobs + 1)
    × (count (is_of_session "tg" "me") (add_job idle request ask 1000 1000).0.jobs ≤ 2)
unfolding program
add_job-is_full_example =
    add_job-is_full idle request ask 1000 1000 "tg" "me" (make_job ask request 1000) refl refl refl
      refl refl
