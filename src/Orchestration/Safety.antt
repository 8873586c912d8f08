-- ===== src/Orchestration/Safety.antt =====
-- What zen_claw/agent/orchestration.py lets run side by side, and without approval.
use zen_claw.Base.{String, ◌≡◌, Bool, true, false, not, ◌&&◌, Option, none, arith, eq_iff}
use zen_claw.Base.Sets.{contains}
use zen_claw.Orchestration.Plan.{
  IntentRouteResult, Stage, gate2_clarify, gate3_plan, gate2_delegate, gate1_execute, no_stage,
  arbitration_of, resolve_routing_stage, Action, execute, delegate, delegates, is_delegated,
  build_routing_decision, PathType, direct, constrained_replan, skill_path, gate3_path,
  clarification, agent_loop, OperationKind, read_only, ConcurrencyClass, parallel_safe,
  serial_required, needs_approval, build_execution_intent,
}

unfoldable pub is_read_only : OperationKind → Bool
is_read_only read_only = true
is_read_only _ = false

unfoldable pub is_parallel : ConcurrencyClass → Bool
is_parallel parallel_safe = true
is_parallel serial_required = false

-- Whatever the result of routing, the arbitration, the question and the skill: an intent may run side
-- by side with others exactly if it only reads, and waits for approval exactly if routing asks for it;
-- an intent that waits is not one that only reads.
pub build_execution_intent_lem :
    (r : IntentRouteResult) (question skill : Option String)
    → (is_parallel (build_execution_intent r question skill).concurrency_class
        ≡ is_read_only (build_execution_intent r question skill).operation_kind)
      × ((build_execution_intent r question skill).approval_required
          ≡ needs_approval r.route_status)
      × ((build_execution_intent r question skill).approval_required
            && is_read_only (build_execution_intent r question skill).operation_kind
          ≡ false)
unfolding build_execution_intent is_parallel is_read_only
build_execution_intent_lem r question skill = ground arith

-- the paths on which an intent can run under a stage that routing reports
unfoldable pub admits : Stage → PathType → Bool
admits gate2_clarify clarification = true
admits gate3_plan gate3_path = true
admits gate1_execute direct = true
admits no_stage constrained_replan = true
admits no_stage agent_loop = true
admits gate2_delegate skill_path = true
admits gate2_delegate gate3_path = true
admits gate2_delegate direct = true
admits gate2_delegate constrained_replan = true
admits gate2_delegate agent_loop = true
admits _ _ = false

unfoldable pub is_execute : Action → Bool
is_execute execute = true
is_execute delegate = false

-- neither a skill, a free plan, a question nor a wait
unfoldable pub is_runtime : PathType → Bool
is_runtime direct = true
is_runtime constrained_replan = true
is_runtime agent_loop = true
is_runtime _ = false

-- If routing asks for no approval and there is no question to the user, the stage that routing reports
-- bounds the path on which the intent runs: a clarification, a free plan or a direct execution that is
-- reported is what is run; where no stage is reported, the intent is planned again under its contract
-- or goes to the agent loop; and a delegation can be any of these but the clarification. If the
-- routing decision is to execute, the intent follows no skill and no free plan.
pub build_execution_intent-build_routing_decision :
    (r : IntentRouteResult) (skill : Option String)
    → needs_approval r.route_status ≡ false
    → let decision = build_routing_decision r in
      let path = (build_execution_intent r none skill).path_type in
      (admits decision.routing_stage path ≡ true)
      × (is_execute decision.action && not (is_runtime path) ≡ false)
unfolding build_routing_decision resolve_routing_stage build_execution_intent contains admits
    is_execute is_runtime delegates is_delegated
build_execution_intent-build_routing_decision r skill h =
    let a = arbitration_of r in
    ground (
      arith,
      h,
      eq_iff a "unclassified",
      eq_iff a "request_clarification",
      eq_iff a "select_skill",
      eq_iff a "confirm_candidate",
      eq_iff "unclassified" "request_clarification",
      eq_iff "unclassified" "select_skill",
    )
