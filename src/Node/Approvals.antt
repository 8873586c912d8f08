-- ===== src/Node/Approvals.antt =====
-- Approving, rejecting and expiring tasks in zen_claw/node/service.py.
use zen_claw.Base.{
  ℕ, suc, String, Bool, true, false, not, ◌&&◌, ◌||◌, none, some, List, [], ◌∷◌, ◌++◌, map, ◌==◌,
  ltb, leb, length, find_first, update_first, if◌then◌else◌,
}
use zen_claw.Base.Text.{strip}
use zen_claw.Base.Sets.{contains, add, add_nonempty}
use zen_claw.Node.Data.{
  pending_approval, pending, rejected, Task, Event, Store, Config, Codec, is_pending,
  is_pending_approval,
}
use zen_claw.Node.Events.{NewEvent, append_event}
use zen_claw.Node.Queue.{has_id}

-- The identifier that an event draws, and its clock.
pub record Stamp : Type 0 where
  pub event_id : String
  pub at_ms : ℕ

unfoldable pub task_event : Task → String → String → String → Stamp → NewEvent
task_event task action actor note stamp = record {
  event_id = stamp.event_id;
  task_id = task.task_id;
  node_id = task.node_id;
  action = action;
  actor = actor;
  note = note;
  trace_id = task.trace_id;
  at_ms = stamp.at_ms;
}

-- `{str(x).strip() for x in approvals if str(x).strip()}`
unfoldable pub approver_set : List String → List String
approver_set approvals = add_nonempty [] (map strip approvals)

abbrev required_or_one : ℕ → ℕ
required_or_one n = if leb 1 n then n else 1

unfoldable pub approved_list : Task → String → List String
approved_list task actor =
    if contains actor (approver_set task.approval.approvals)
    then task.approval.approvals
    else task.approval.approvals ++ actor ∷ []

unfoldable pub reached : Task → String → Bool
reached task actor =
    leb (required_or_one task.approval.required_count)
      (length (add actor (approver_set task.approval.approvals)))

-- what `approve_task` writes to the task
unfoldable pub approve : String → String → ℕ → ℕ → Task → Task
approve actor note approved_ms now task = record task {
  approval = record task.approval {
    required_count = required_or_one task.approval.required_count;
    approvals = approved_list task actor;
    approved_by = actor;
    approved_at_ms = some approved_ms;
    note = note;
  };
  status = if reached task actor then pending else pending_approval;
  updated_at_ms = now;
}

unfoldable pub approve_task :
    Config → Codec → Store → String → String → String → ℕ → ℕ → Stamp → Store × Bool
approve_task cfg codec s task_id approved_by note approved_ms now stamp =
    elim (find_first (has_id task_id) s.tasks) [
      | none ↦ (s, false)
      | some task ↦
          let actor = strip approved_by in
          if not (is_pending_approval task.status)
          then (s, false)
          else if actor == ""
          then (s, false)
          else (
            record s {
              tasks = update_first (has_id task_id) (approve actor note approved_ms now) s.tasks;
              approval_events = append_event cfg codec s.approval_events (
                  task_event task (if reached task actor then "approved" else "approved_step")
                    approved_by note stamp);
            },
            true,
          )
    ]

abbrev or_default_reason : String → String
or_default_reason reason = if reason == "" then "rejected by approver" else reason

-- what `reject_task` writes to the task
unfoldable pub reject : String → String → ℕ → ℕ → Task → Task
reject rejected_by reason rejected_ms now task = record task {
  approval = record task.approval {
    rejected_by = strip rejected_by;
    rejected_at_ms = some rejected_ms;
    note = reason;
  };
  status = rejected;
  error = some (or_default_reason reason);
  updated_at_ms = now;
}

unfoldable pub reject_task :
    Config → Codec → Store → String → String → String → ℕ → ℕ → Stamp → Store × Bool
reject_task cfg codec s task_id rejected_by reason rejected_ms now stamp =
    elim (find_first (has_id task_id) s.tasks) [
      | none ↦ (s, false)
      | some task ↦
          if not (is_pending_approval task.status || is_pending task.status) then (s, false) else (
            record s {
              tasks =
                  update_first (has_id task_id) (reject rejected_by reason rejected_ms now) s.tasks;
              approval_events =
                  append_event cfg codec s.approval_events
                    (task_event task "rejected" rejected_by reason stamp);
            },
            true,
          )
    ]

-- the tests of the loop of `expire_pending_approvals`
unfoldable pub is_overdue : ℕ → Task → Bool
is_overdue now task = is_pending_approval task.status && elim task.approval.expires_at_ms [
  | none ↦ false
  | some expires_at_ms ↦ ltb 0 expires_at_ms && leb expires_at_ms now
]

-- what the loop writes to an overdue task
unfoldable pub expire : ℕ → Task → Task
expire now task = record task {
  status = rejected;
  error = some "approval timeout";
  approval = record task.approval {
    rejected_by = "system-timeout";
    rejected_at_ms = some now;
    note = "approval timeout";
  };
  updated_at_ms = now;
}

-- The i-th event that the loop appends draws `stamp i`.
unfoldable pub expire_from :
    Config → Codec → ℕ → (ℕ → Stamp) → ℕ → List Task → List Event → List Task × List Event × ℕ
expire_from cfg codec now stamp i [] events = ([], events, i)
expire_from cfg codec now stamp i (task ∷ tasks) events =
    let due = is_overdue now task in
    let events' =
      if due
      then append_event cfg codec events
          (task_event task "expired" "system-timeout" "approval timeout" (stamp i))
      else events in
    let (rest, final, expired) =
      expire_from cfg codec now stamp (if due then suc i else i) tasks events' in
    ((if due then expire now task else task) ∷ rest, final, expired)

unfoldable pub expire_pending_approvals : Config → Codec → Store → ℕ → (ℕ → Stamp) → Store × ℕ
expire_pending_approvals cfg codec s now stamp =
    let (tasks, events, expired) = expire_from cfg codec now stamp 0 s.tasks s.approval_events in
    (record s { tasks = tasks; approval_events = events }, expired)
