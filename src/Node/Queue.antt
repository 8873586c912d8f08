-- ===== src/Node/Queue.antt =====
-- Leasing, running and completing tasks in zen_claw/node/service.py.
use zen_claw.Base.{
  keep, ℕ, ◌+◌, String, Bool, true, false, not, ◌&&◌, Option, none, some, List, [], ◌∷◌, ◌==◌, ltb,
  leb, count, find_first, update_first, if◌then◌else◌,
}
use zen_claw.Base.Text.{norm}
use zen_claw.Base.Sets.{contains}
use zen_claw.Node.Payload.{Payload, flag, text, decimal}
use zen_claw.Node.Data.{
  Status, leased, running, done, pending, error, Task, Store, Codec, is_active, is_pending,
}
use zen_claw.Node.Tokens.{auth}
use zen_claw.Node.Policies.{get_node_policy}
use zen_claw.Node.Submit.{max_bytes}
use Prim.Native.String.{◌++◌ as str_append}

unfoldable pub is_active_on : String → Task → Bool
is_active_on node_id row = row.node_id == node_id && is_active row.status

-- `_active_task_count`
unfoldable pub active_task_count : List Task → String → ℕ
active_task_count tasks node_id = count (is_active_on node_id) tasks

unfoldable pub is_pending_on : String → Task → Bool
is_pending_on node_id task = task.node_id == node_id && is_pending task.status

abbrev pub lease : Status → String → ℕ → Task → Task
lease status worker now task = record task {
  status = status;
  leased_by = some worker;
  updated_at_ms = now;
}

unfoldable pub pull_task : Store → String → String → ℕ → ℕ → Store × Option Task
pull_task s node_id token auth_ms now =
    if not (auth s node_id token auth_ms)
    then (s, none)
    else if leb (get_node_policy s node_id).max_running_tasks (active_task_count s.tasks node_id)
    then (s, none)
    else elim (find_first (is_pending_on node_id) s.tasks) [
      | none ↦ (s, none)
      | some task ↦ (
        record s {
          tasks = update_first (is_pending_on node_id) (lease leased node_id now) s.tasks;
        },
        some (lease leased node_id now task),
      )
    ]

unfoldable pub is_task_of : String → String → Task → Bool
is_task_of task_id node_id task = task.task_id == task_id && task.node_id == node_id

-- `status in {"leased", "pending"}`
unfoldable pub may_ack : Status → Bool
may_ack leased = true
may_ack pending = true
may_ack _ = false

unfoldable pub ack_task : Store → String → String → String → ℕ → ℕ → Store × Bool
ack_task s node_id token task_id auth_ms now =
    if not (auth s node_id token auth_ms)
    then (s, false)
    else elim (find_first (is_task_of task_id node_id) s.tasks) [
      | none ↦ (s, false)
      | some task ↦ if not (may_ack task.status) then (s, false) else (
        record s {
          tasks = update_first (is_task_of task_id node_id) (lease running node_id now) s.tasks;
        },
        true,
      )
    ]

unfoldable pub truncated_result : ℕ → Payload
unfolding decimal
truncated_result bytes =
    ("ok", flag false)
    ∷ ("error_code", text "node_result_too_large")
    ∷ (
      "error",
      text (
          str_append "result payload truncated: "
            (str_append (decimal (bytes + 1) bytes) " bytes exceeded 102400 byte limit")),
    )
    ∷ []

-- the size limit on a node's result
unfoldable pub limited_result : Codec → Option Payload → Option Payload
limited_result codec none = none
limited_result codec (some result) =
    if ltb max_bytes (codec.json_bytes result)
    then some (truncated_result (codec.json_bytes result))
    else some result

abbrev or_nothing : Option Payload → Payload
or_nothing none = []
or_nothing (some result) = result

abbrev or_blank : Option String → String
or_blank none = ""
or_blank (some message) = message

unfoldable pub finish : Bool → Option Payload → Option String → ℕ → Task → Task
finish ok result err now task = record task {
  status = if ok then done else error;
  result = some (or_nothing result);
  error = some (or_blank err);
  updated_at_ms = now;
}

unfoldable pub complete_task :
    Codec
    → Store
    → String
    → String
    → String
    → Bool
    → Option Payload
    → Option String
    → ℕ
    → ℕ
    → Store × Bool
complete_task codec s node_id token task_id ok result err auth_ms now =
    if not (auth s node_id token auth_ms)
    then (s, false)
    else elim (find_first (is_task_of task_id node_id) s.tasks) [
      | none ↦ (s, false)
      | some task ↦ (
        record s {
          tasks =
              update_first (is_task_of task_id node_id)
                (finish ok (limited_result codec result) err now) s.tasks;
        },
        true,
      )
    ]

unfoldable pub has_id : String → Task → Bool
has_id task_id task = task.task_id == task_id

unfoldable pub complete_task_system :
    Store → String → Bool → Option Payload → Option String → ℕ → Store × Bool
complete_task_system s task_id ok result err now = elim (find_first (has_id task_id) s.tasks) [
  | none ↦ (s, false)
  | some task ↦
      (record s { tasks = update_first (has_id task_id) (finish ok result err now) s.tasks }, true)
]

-- the tests of the loop of `claim_next_gateway_task`
unfoldable pub is_claimable : Store → Task → Bool
is_claimable s task =
    is_pending task.status
    && (contains (norm task.task_type) ("agent.prompt" ∷ "message.send" ∷ [])
        && ((get_node_policy s task.node_id).allow_gateway_tasks
            && ltb (active_task_count s.tasks task.node_id)
                (get_node_policy s task.node_id).max_running_tasks))

unfoldable pub claim_next_gateway_task : Store → String → ℕ → Store × Option Task
claim_next_gateway_task s worker_id now = elim (find_first (is_claimable s) s.tasks) [
  | none ↦ (s, none)
  | some task ↦ (
    record s { tasks = update_first (is_claimable s) (lease running worker_id now) s.tasks },
    some (lease running worker_id now task),
  )
]

abbrev insert_by_created : Task → List Task → List Task
insert_by_created t [] = t ∷ []
insert_by_created t (u ∷ us) =
    if leb t.created_at_ms u.created_at_ms then t ∷ u ∷ us else u ∷ insert_by_created t us

-- `sorted(out, key=created_at_ms)`, which is stable
unfoldable sort_by_created : List Task → List Task
sort_by_created [] = []
sort_by_created (t ∷ ts) = insert_by_created t (sort_by_created ts)

-- no node and the empty one both stand for all
abbrev is_of_node : Option String → Task → Bool
is_of_node none t = true
is_of_node (some node_id) t = if node_id == "" then true else t.node_id == node_id

unfoldable list_tasks : Store → Option String → List Task
unfolding keep
list_tasks s node_id = sort_by_created (keep (is_of_node node_id) s.tasks)
