-- ===== src/Cron/Jobs.antt =====
-- The records of zen_claw/cron/types.py, and `_compute_next_run` of zen_claw/cron/service.py.
use zen_claw.Base.{ℕ, ◌+◌, String, Bool, Option, none, some, ltb, if◌then◌else◌, ◌==◌}
use zen_claw.Base.Int.{ℤ, pos, negsuc}
use zen_claw.Base.Dict.{Dict}

pub data Kind : Type 0 where
  at every cron : Kind

pub record CronSchedule : Type 0 where
  pub kind : Kind
  pub at_ms : Option ℤ
  pub every_ms : Option ℤ
  pub expr : Option String
  pub tz : Option String

pub record CronPayload : Type 0 where
  pub kind : String
  pub message : String
  pub deliver : Bool
  pub channel : Option String
  pub to : Option String
  pub target_url : Option String
  pub target_method : String
  pub target_headers : Dict String
  pub target_timeout_sec : ℕ
  pub knowledge_source : Option String
  pub knowledge_notebook : Option String
  pub knowledge_retention_max_documents : Option ℕ
  pub knowledge_retention_max_age_days : Option ℕ
  pub crawler_source_name : Option String
  pub crawler_source_url : Option String
  pub crawler_notebook : Option String
  pub crawler_selector : Option String
  pub crawler_use_browser : Bool
  pub crawler_max_chars : Option ℕ
  pub crawler_metadata_json : Option String
  pub crawler_tenant_id : Option String
  pub crawler_store_backend : Option String

pub record CronJobState : Type 0 where
  pub next_run_at_ms : Option ℕ
  pub last_run_at_ms : Option ℕ
  pub last_status : Option String
  pub last_error : Option String

pub record CronJob : Type 0 where
  pub id : String
  pub name : String
  pub enabled : Bool
  pub schedule : CronSchedule
  pub payload : CronPayload
  pub state : CronJobState
  pub created_at_ms : ℕ
  pub updated_at_ms : ℕ
  pub delete_after_run : Bool

-- What the croniter package answers for an expression when it is asked: a time in milliseconds, or
-- nothing if it is not installed or raises.
abbrev pub Croniter : Type 0
Croniter = String → Option ℕ

-- `at_ms if at_ms and at_ms > now_ms else None`
unfoldable pub next_at : Option ℤ → ℕ → Option ℕ
next_at none now = none
next_at (some (negsuc n)) now = none
next_at (some (pos n)) now = if ltb now n then some n else none

unfoldable pub next_every : Option ℤ → ℕ → Option ℕ
next_every none now = none
next_every (some (negsuc n)) now = none
next_every (some (pos n)) now = if ltb 0 n then some (now + n) else none

unfoldable pub next_cron : Croniter → Option String → Option ℕ
next_cron ask none = none
next_cron ask (some expr) = if expr == "" then none else ask expr

-- `_compute_next_run`
unfoldable pub compute_next_run : Croniter → CronSchedule → ℕ → Option ℕ
compute_next_run ask schedule now = elim schedule.kind [
  | at ↦ next_at schedule.at_ms now
  | every ↦ next_every schedule.every_ms now
  | cron ↦ next_cron ask schedule.expr
]
