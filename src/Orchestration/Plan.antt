-- ===== src/Orchestration/Plan.antt =====
-- The decisions of zen_claw/agent/orchestration.py on an `IntentRouteResult` of
-- zen_claw/agent/intent_router_contracts.py, with the fields that they read. Of a route candidate the
-- match and the source are kept; its confidence and its evidence are not modelled.
use zen_claw.Base.{
  String, Bool, true, false, not, ◌&&◌, ◌||◌, Option, none, some, List, [], ◌∷◌, ◌==◌, is_some,
  if◌then◌else◌,
}
use zen_claw.Base.Dict.{Dict, get}
use zen_claw.Base.Text.{norm, strip, has_substring}
use zen_claw.Base.Sets.{contains, sorted}

pub data RouteStatus : Type 0 where
  miss direct_success direct_failed needs_constrained_replan needs_explicit_approval : RouteStatus

pub record IntentToolContract : Type 0 where
  pub intent_name : String
  pub allowed_tools : List String
  pub denied_tools : List String

pub record IntentRouteResult : Type 0 where
  pub intent_name : Option String
  pub contract : Option IntentToolContract
  pub route_status : RouteStatus
  pub diagnostic : Option String
  pub route_candidate : Option (Dict String)
  pub delegate_reason : Option String
  pub safety_valve_outcome : Option String
  pub arbitration_result : Option String

-- `str(x or "")`
abbrev pub or_blank : Option String → String
or_blank none = ""
or_blank (some s) = s

-- `s or None`
abbrev pub or_none : String → Option String
or_none s = if s == "" then none else some s

pub data Stage : Type 0 where
  gate2_clarify gate3_plan gate2_delegate gate1_execute no_stage : Stage

unfoldable pub arbitration_of : IntentRouteResult → String
arbitration_of r = norm (or_blank r.arbitration_result)

unfoldable pub is_direct : RouteStatus → Bool
is_direct direct_success = true
is_direct direct_failed = true
is_direct _ = false

unfoldable pub is_delegated : IntentRouteResult → Bool
is_delegated r = or_blank r.safety_valve_outcome == "delegate"

-- `resolve_routing_stage`: the stage, and whether the third gate is entered
unfoldable pub resolve_routing_stage : IntentRouteResult → Stage × Bool
resolve_routing_stage r =
    let arbitration = arbitration_of r in
    if arbitration == "request_clarification"
    then (gate2_clarify, false)
    else if arbitration == "unclassified" && has_substring (or_blank r.diagnostic) "gate3_entry"
    then (gate3_plan, true)
    else if is_delegated r
        || contains arbitration ("confirm_candidate" ∷ "select_skill" ∷ "unclassified" ∷ [])
    then (gate2_delegate, false)
    else if is_direct r.route_status
    then (gate1_execute, false)
    else (no_stage, false)

pub data Action : Type 0 where
  execute delegate : Action

pub record RoutingDecision : Type 0 where
  pub action : Action
  pub route_status : RouteStatus
  pub routing_stage : Stage
  pub entered_gate3 : Bool
  pub intent_name : Option String
  pub delegate_reason : Option String
  pub safety_valve_outcome : Option String

-- `routing_stage in {"gate2_delegate", "gate2_clarify", "gate3_plan"}`
unfoldable pub delegates : Stage → Bool
delegates gate2_delegate = true
delegates gate2_clarify = true
delegates gate3_plan = true
delegates _ = false

unfoldable pub build_routing_decision : IntentRouteResult → RoutingDecision
build_routing_decision r =
    let (stage, entered) = resolve_routing_stage r in
    record {
      action = if is_delegated r || delegates stage then delegate else execute;
      route_status = r.route_status;
      routing_stage = stage;
      entered_gate3 = entered;
      intent_name = r.intent_name;
      delegate_reason = r.delegate_reason;
      safety_valve_outcome = r.safety_valve_outcome;
    }

pub record ArbitrationDecision : Type 0 where
  pub kind : String
  pub candidate_name : Option String
  pub skill_name : Option String
  pub clarification_question : Option String
  pub diagnostic : Option String

pub record RouteCandidate : Type 0 where
  pub match_name : String
  pub source : String

-- `RouteCandidate.from_payload`
unfoldable pub from_payload : Option (Dict String) → Option RouteCandidate
from_payload none = none
from_payload (some payload) = some (record {
  match_name = strip (or_blank (get payload "match"));
  source = strip (or_blank (get payload "source"));
})

unfoldable pub candidate_name_of : Option RouteCandidate → Option String
candidate_name_of none = none
candidate_name_of (some c) = or_none c.match_name

unfoldable pub build_arbitration_decision :
    IntentRouteResult → Option String → Option String → ArbitrationDecision
build_arbitration_decision r clarification_question selected_skill =
    let given = arbitration_of r in
    let known =
      contains given
        ("confirm_candidate" ∷ "select_skill" ∷ "request_clarification" ∷ "unclassified" ∷ []) in
    let kind = if known then given else "" in
    record {
      kind = kind;
      candidate_name =
          if kind == "confirm_candidate"
          then candidate_name_of (from_payload r.route_candidate)
          else none;
      skill_name = if kind == "select_skill" then selected_skill else none;
      clarification_question =
          if kind == "request_clarification" then clarification_question else none;
      diagnostic = or_none (strip (or_blank r.diagnostic));
    }

pub data PathType : Type 0 where
  direct constrained_replan skill_path gate3_path clarification approval_wait agent_loop : PathType

pub data ExecutionMode : Type 0 where
  runtime_direct llm_constrained skill_guided llm_free_plan clarification_mode approval_wait_mode
        agent_loop_mode :
      ExecutionMode

pub data DecisionSource : Type 0 where
  intent_router gate2 gate3 approval_gate : DecisionSource

pub data OperationKind : Type 0 where
  read_only state_mutating external_side_effect requires_approval : OperationKind

pub data ConcurrencyClass : Type 0 where
  parallel_safe serial_required : ConcurrencyClass

pub record ExecutionIntent : Type 0 where
  pub path_type : PathType
  pub execution_mode : ExecutionMode
  pub decision_source : DecisionSource
  pub operation_kind : OperationKind
  pub concurrency_class : ConcurrencyClass
  pub contract_intent : Option String
  pub allowed_tools : List String
  pub denied_tools : List String
  pub approval_required : Bool

unfoldable pub allowed_of : Option IntentToolContract → List String
allowed_of none = []
allowed_of (some c) = sorted c.allowed_tools

unfoldable pub denied_of : Option IntentToolContract → List String
denied_of none = []
denied_of (some c) = sorted c.denied_tools

unfoldable pub contract_intent_of : IntentRouteResult → Option String
contract_intent_of r = elim r.contract [ none ↦ r.intent_name | some c ↦ some c.intent_name ]

abbrev intent :
    IntentRouteResult
    → PathType
    → ExecutionMode
    → DecisionSource
    → OperationKind
    → ConcurrencyClass
    → Option String
    → Bool
    → ExecutionIntent
intent r path mode source kind concurrency name approval = record {
  path_type = path;
  execution_mode = mode;
  decision_source = source;
  operation_kind = kind;
  concurrency_class = concurrency;
  contract_intent = name;
  allowed_tools = allowed_of r.contract;
  denied_tools = denied_of r.contract;
  approval_required = approval;
}

unfoldable pub needs_approval : RouteStatus → Bool
needs_approval needs_explicit_approval = true
needs_approval _ = false

unfoldable pub needs_replan : RouteStatus → Bool
needs_replan needs_constrained_replan = true
needs_replan _ = false

unfoldable pub build_execution_intent :
    IntentRouteResult → Option String → Option String → ExecutionIntent
build_execution_intent r clarification_question selected_skill =
    let arbitration = arbitration_of r in
    let name = contract_intent_of r in
    if needs_approval r.route_status
    then intent r approval_wait approval_wait_mode approval_gate requires_approval serial_required
        name true
    else if is_some clarification_question || (arbitration == "request_clarification")
    then intent r clarification clarification_mode gate2 read_only parallel_safe name false
    else if arbitration == "select_skill" && not (or_blank selected_skill == "")
    then intent r skill_path skill_guided gate2 external_side_effect serial_required selected_skill
        false
    else if arbitration == "unclassified"
    then intent r gate3_path llm_free_plan gate3 external_side_effect serial_required name false
    else if is_direct r.route_status
    then intent r direct runtime_direct intent_router read_only parallel_safe name false
    else if needs_replan r.route_status
    then intent r constrained_replan llm_constrained
        (if arbitration == "confirm_candidate" then gate2 else intent_router) external_side_effect
        serial_required name false
    else intent r agent_loop agent_loop_mode gate3 external_side_effect serial_required name false
