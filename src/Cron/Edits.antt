-- ===== src/Cron/Edits.antt =====
-- `add_job`, `remove_job`, `enable_job`, `run_job` and `status` of zen_claw/cron/service.py.
use zen_claw.Base.{
  ℕ, String, Bool, true, false, not, ◌&&◌, Option, none, some, List, [], ◌∷◌, ◌++◌, ◌==◌, ltb, leb,
  eqb, length, keep, find_first, update_first, if◌then◌else◌,
}
use zen_claw.Base.Int.{ℤ, pos, negsuc}
use zen_claw.Base.Dict.{Dict}
use zen_claw.Base.Text.{strip, upper}
use zen_claw.Cron.Jobs.{CronSchedule, CronPayload, CronJob, Croniter, compute_next_run}
use zen_claw.Cron.Service.{
  CronService, Run, arm_timer, has_id, execute_job, get_next_wake_ms, with_next,
}

-- The arguments of `add_job`, with the identifier that it draws.
pub record JobRequest : Type 0 where
  pub name : String
  pub schedule : CronSchedule
  pub message : String
  pub deliver : Bool
  pub channel : Option String
  pub to : Option String
  pub target_url : Option String
  pub target_method : String
  pub target_headers : Dict String
  pub target_timeout_sec : ℤ
  pub knowledge_source : Option String
  pub knowledge_notebook : Option String
  pub knowledge_retention_max_documents : Option ℤ
  pub knowledge_retention_max_age_days : Option ℤ
  pub crawler_source_name : Option String
  pub crawler_source_url : Option String
  pub crawler_notebook : Option String
  pub crawler_selector : Option String
  pub crawler_use_browser : Bool
  pub crawler_max_chars : Option ℤ
  pub crawler_metadata_json : Option String
  pub crawler_tenant_id : Option String
  pub crawler_store_backend : Option String
  pub delete_after_run : Bool
  pub max_jobs : ℕ
  pub id : String

-- `str(x).strip() if x else None`
unfoldable pub stripped : Option String → Option String
stripped none = none
stripped (some x) = if x == "" then none else some (strip x)

-- `max(lo, int(x or fallback))`
unfoldable pub at_least : ℕ → ℕ → ℤ → ℕ
at_least lo fallback (pos n) = let m = if eqb n 0 then fallback else n in if leb lo m then m else lo
at_least lo fallback (negsuc n) = lo

unfoldable pub at_least_given : ℕ → ℕ → Option ℤ → Option ℕ
at_least_given lo fallback none = none
at_least_given lo fallback (some n) = some (at_least lo fallback n)

unfoldable pub make_payload : JobRequest → CronPayload
make_payload r = record {
  kind = "agent_turn";
  message = r.message;
  deliver = r.deliver;
  channel = r.channel;
  to = r.to;
  target_url = stripped r.target_url;
  target_method = upper (if r.target_method == "" then "POST" else r.target_method);
  target_headers = r.target_headers;
  target_timeout_sec = at_least 1 10 r.target_timeout_sec;
  knowledge_source = stripped r.knowledge_source;
  knowledge_notebook = stripped r.knowledge_notebook;
  knowledge_retention_max_documents = at_least_given 0 0 r.knowledge_retention_max_documents;
  knowledge_retention_max_age_days = at_least_given 0 0 r.knowledge_retention_max_age_days;
  crawler_source_name = stripped r.crawler_source_name;
  crawler_source_url = stripped r.crawler_source_url;
  crawler_notebook = stripped r.crawler_notebook;
  crawler_selector = stripped r.crawler_selector;
  crawler_use_browser = r.crawler_use_browser;
  crawler_max_chars = at_least_given 100 20000 r.crawler_max_chars;
  crawler_metadata_json = stripped r.crawler_metadata_json;
  crawler_tenant_id = stripped r.crawler_tenant_id;
  crawler_store_backend = stripped r.crawler_store_backend;
}

unfoldable pub make_job : Croniter → JobRequest → ℕ → CronJob
make_job ask r now = record {
  id = r.id;
  name = r.name;
  enabled = true;
  schedule = r.schedule;
  payload = make_payload r;
  state = record {
    next_run_at_ms = compute_next_run ask r.schedule now;
    last_run_at_ms = none;
    last_status = none;
    last_error = none;
  };
  created_at_ms = now;
  updated_at_ms = now;
  delete_after_run = r.delete_after_run;
}

abbrev same_text : Option String → String → Bool
same_text none x = false
same_text (some y) x = y == x

unfoldable pub is_of_session : String → String → CronJob → Bool
is_of_session channel to j = same_text j.payload.channel channel && same_text j.payload.to to

-- `channel and to`, and the number of jobs of that session is at the limit
unfoldable pub is_full : List CronJob → Option String → Option String → ℕ → Bool
is_full jobs none to max_jobs = false
is_full jobs (some channel) none max_jobs = false
is_full jobs (some channel) (some to) max_jobs =
    not (channel == "")
    && (not (to == "") && leb max_jobs (length (keep (is_of_session channel to) jobs)))

-- `none` stands for the ValueError
unfoldable pub add_job : CronService → JobRequest → Croniter → ℕ → ℕ → CronService × Option CronJob
add_job s r ask now arm_ms =
    if is_full s.jobs r.channel r.to r.max_jobs
    then (s, none)
    else let job = make_job ask r now in
      (arm_timer (record s { jobs = s.jobs ++ job ∷ [] }) arm_ms, some job)

unfoldable pub remove_job : CronService → String → ℕ → CronService × Bool
remove_job s job_id arm_ms =
    let left = keep (λ j. not (has_id job_id j)) s.jobs in
    if ltb (length left) (length s.jobs)
    then (arm_timer (record s { jobs = left }) arm_ms, true)
    else (record s { jobs = left }, false)

unfoldable pub set_enabled : Croniter → Bool → ℕ → ℕ → CronJob → CronJob
set_enabled ask enabled updated_ms next_ms job =
    with_next (record job { enabled = enabled; updated_at_ms = updated_ms })
      (if enabled then compute_next_run ask job.schedule next_ms else none)

unfoldable pub enable_job :
    CronService → String → Bool → Croniter → ℕ → ℕ → ℕ → CronService × Option CronJob
enable_job s job_id enabled ask updated_ms next_ms arm_ms =
    elim (find_first (has_id job_id) s.jobs) [
      | none ↦ (s, none)
      | some job ↦ (
        arm_timer
            (record s {
              jobs =
                  update_first (has_id job_id) (set_enabled ask enabled updated_ms next_ms) s.jobs;
            })
            arm_ms,
        some (set_enabled ask enabled updated_ms next_ms job),
      )
    ]

unfoldable pub run_job : CronService → String → Bool → Run → ℕ → CronService × Bool
run_job s job_id force r arm_ms = elim (find_first (has_id job_id) s.jobs) [
  | none ↦ (s, false)
  | some job ↦
      if not force && not job.enabled
      then (s, false)
      else (arm_timer (record s { jobs = execute_job s.jobs job r }) arm_ms, true)
]

pub record ServiceStatus : Type 0 where
  pub enabled : Bool
  pub jobs : ℕ
  pub next_wake_at_ms : Option ℕ

unfoldable pub status : CronService → ServiceStatus
status s = record {
  enabled = s.running;
  jobs = length s.jobs;
  next_wake_at_ms = get_next_wake_ms s.jobs;
}
