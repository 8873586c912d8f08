-- ===== src/Node/Submit.antt =====
-- `add_task` of zen_claw/node/service.py and the checks that it makes.
use zen_claw.Base.{
  ℕ, ◌+◌, ◌-◌, ◌*◌, String, Bool, not, ◌&&◌, Option, none, some, List, [], ◌∷◌, ◌++◌, ◌==◌, ltb,
  leb, if◌then◌else◌,
}
use zen_claw.Base.Dict.{get}
use zen_claw.Base.Text.{norm, strip, has_substring}
use zen_claw.Base.Sets.{contains}
use zen_claw.Node.Payload.{Payload, Value, str_or_empty, truthy, payload_eq}
use zen_claw.Node.Data.{Policy, pending_approval, pending, Task, Store, Config, Codec}
use zen_claw.Node.Policies.{
  get_node_policy, task_type_allowed, required_capability_for_task, node_has_capability,
}
use zen_claw.Node.Events.{append_event}
use Prim.Native.String.{◌++◌ as str_append}

-- `_TASK_PAYLOAD_MAX_BYTES` and `_TASK_RESULT_MAX_BYTES`
abbrev pub max_bytes : ℕ
max_bytes = 102400

abbrev forbidden_override_keys : List String
forbidden_override_keys =
    "kill_switch_enabled" ∷ "kill_switch_reason" ∷ "production_hardening" ∷ "tool_policy"
    ∷ "policy_override" ∷ []

abbrev loop_markers : List String
loop_markers =
    "while true" ∷ "for(;;)" ∷ "for (;;)" ∷ "loop forever" ∷ "repeat forever" ∷ "infinite loop"
    ∷ "无限循环" ∷ "死循环" ∷ []

unfoldable pub key_violations : Payload → List String
key_violations [] = []
key_violations ((key, v) ∷ rest) =
    let token = norm key in
    let later = key_violations rest in
    if contains token forbidden_override_keys
    then str_append "forbidden_payload_key:" token ∷ later
    else later

unfoldable pub first_marker : String → List String → List String
first_marker prompt [] = []
first_marker prompt (marker ∷ rest) =
    if has_substring prompt marker
    then str_append "loop_risk:" marker ∷ []
    else first_marker prompt rest

-- `payload.get("prompt") or payload.get("message") or payload.get("content")`
unfoldable pub prompt_of : Payload → Option Value
prompt_of payload =
    if truthy (get payload "prompt")
    then get payload "prompt"
    else if truthy (get payload "message")
    then get payload "message"
    else get payload "content"

-- `_collect_static_violations`
unfoldable pub collect_static_violations : String → Payload → List String
collect_static_violations task_type payload =
    let t = norm task_type in
    let prompt = norm (str_or_empty (prompt_of payload)) in
    let channel = norm (str_or_empty (get payload "channel")) in
    key_violations payload
    ++ ((if t == "agent.prompt" && not (prompt == "") then first_marker prompt loop_markers else [])
        ++ (if t == "message.send" && contains channel ("system" ∷ "_system" ∷ [])
            then "reserved_channel:system" ∷ []
            else []))

pub data Submitted : Type 0 where
  unknown_node : Submitted
  payload_too_large : (payload_bytes : ℕ) → Submitted
  policy_denied : Submitted
  capability_denied : (required_capability : String) → Submitted
  static_denied : (violations : List String) → Submitted
  replay_conflict : (idempotency_key existing_task_id : String) → Submitted
  deduplicated : Task → Submitted
  created : Task → Submitted

-- the tests of the loop over the tasks that decide that a row answers the request
unfoldable pub is_replay : Config → String → String → ℕ → Task → Bool
is_replay cfg node_id idem now row =
    (row.node_id == node_id && row.idempotency_key == idem)
    && not (
        ltb 0 cfg.idempotency_window_sec
        && (ltb 0 row.created_at_ms
            && ltb (cfg.idempotency_window_sec * 1000) (now - row.created_at_ms)))

unfoldable pub replay : String → String → Payload → String → Task → Submitted
replay idem task_type payload req_cap row =
    if not (norm row.task_type == task_type)
    then replay_conflict idem row.task_id
    else if not (payload_eq row.payload payload)
    then replay_conflict idem row.task_id
    else if not (norm row.required_capability == req_cap)
    then replay_conflict idem row.task_id
    else deduplicated row

unfoldable pub find_replay : Config → String → String → ℕ → List Task → Option Task
find_replay cfg node_id idem now [] = none
find_replay cfg node_id idem now (row ∷ rows) =
    if is_replay cfg node_id idem now row then some row else find_replay cfg node_id idem now rows

-- The keyword arguments of `add_task`, the identifiers that it draws, and its clock: at the look
-- for a replay, at the creation, at the deadline of the approval, and of its event.
pub record Request : Type 0 where
  pub node_id : String
  pub task_type : String
  pub payload : Payload
  pub idempotency_key : String
  pub required_capability : String
  pub task_id : String
  pub trace_id : String
  pub event_id : String
  pub replay_ms : ℕ
  pub created_ms : ℕ
  pub deadline_ms : ℕ
  pub event_ms : ℕ

-- `str(required_capability or "").strip().lower() or self._required_capability_for_task(...)`
unfoldable pub required_capability : Request → String
required_capability r =
    let given = norm r.required_capability in
    if given == "" then required_capability_for_task (norm r.task_type) else given

unfoldable pub make_task : Policy → Request → Bool → Task
make_task policy r requires_approval = record {
  task_id = r.task_id;
  trace_id = r.trace_id;
  node_id = r.node_id;
  task_type = norm r.task_type;
  payload = r.payload;
  idempotency_key = strip r.idempotency_key;
  required_capability = required_capability r;
  status = if requires_approval then pending_approval else pending;
  approval = record {
    required = requires_approval;
    approved_by = "";
    approved_at_ms = none;
    rejected_by = "";
    rejected_at_ms = none;
    note = "";
    expires_at_ms =
        if requires_approval && ltb 0 policy.approval_timeout_sec
        then some (r.deadline_ms + policy.approval_timeout_sec * 1000)
        else none;
    required_count =
        if leb 1 policy.approval_required_count then policy.approval_required_count else 1;
    approvals = [];
  };
  created_at_ms = r.created_ms;
  updated_at_ms = r.created_ms;
  leased_by = none;
  result = none;
  error = none;
}

-- the part of `add_task` below the look for a replay
unfoldable pub create_task : Config → Codec → Store → Request → Store × Submitted
create_task cfg codec s r =
    let policy = get_node_policy s r.node_id in
    let requires_approval =
      task_type_allowed (norm r.task_type) policy.require_approval_task_types in
    let task = make_task policy r requires_approval in
    let events =
      if requires_approval
      then append_event cfg codec s.approval_events (record {
        event_id = r.event_id;
        task_id = task.task_id;
        node_id = r.node_id;
        action = "submitted";
        actor = "system";
        note = "task requires approval";
        trace_id = task.trace_id;
        at_ms = r.event_ms;
      })
      else s.approval_events in
    (record s { tasks = s.tasks ++ task ∷ []; approval_events = events }, created task)

-- the checks of `add_task` above the look for a replay; `none` if all of them pass
unfoldable pub check_task : Codec → Store → Request → Option Submitted
check_task codec s r =
    if ltb max_bytes (codec.json_bytes r.payload)
    then some (payload_too_large (codec.json_bytes r.payload))
    else elim (get s.nodes r.node_id) [
      | none ↦ some unknown_node
      | some node ↦
          if not
            (task_type_allowed (norm r.task_type) (get_node_policy s r.node_id).allowed_task_types)
          then some policy_denied
          else if not (required_capability r == "")
              && not (node_has_capability s r.node_id (required_capability r))
          then some (capability_denied (required_capability r))
          else elim (collect_static_violations (norm r.task_type) r.payload) [
            | v ∷ vs ↦ some (static_denied (v ∷ vs))
            | [] ↦ none
          ]
    ]

unfoldable pub add_task : Config → Codec → Store → Request → Store × Submitted
add_task cfg codec s r = elim (check_task codec s r) [
  | some refusal ↦ (s, refusal)
  | none ↦
      let idem = strip r.idempotency_key in
      if idem == ""
      then create_task cfg codec s r
      else elim (find_replay cfg r.node_id idem r.replay_ms s.tasks) [
        | some row ↦ (s, replay idem (norm r.task_type) r.payload (required_capability r) row)
        | none ↦ create_task cfg codec s r
      ]
]
