-- ===== src/Orchestration/Tests.antt =====
-- Small results of routing.
use zen_claw.Base.{◌≡◌, refl, true, false, not, none, some, [], ◌∷◌, ◌&&◌}
use zen_claw.Base.Dict.{get}
use zen_claw.Base.Text.{norm, strip, lower, has_substring, starts_with}
use zen_claw.Base.Sets.{contains, sorted}
use zen_claw.Orchestration.Plan.{
  IntentRouteResult, miss, direct_success, gate2_delegate, direct, needs_explicit_approval,
  arbitration_of, is_direct, is_delegated, resolve_routing_stage, delegates, build_routing_decision,
  from_payload, candidate_name_of, build_arbitration_decision, gate3_path, allowed_of, denied_of,
  contract_intent_of, needs_approval, needs_replan, build_execution_intent,
}
use zen_claw.Orchestration.Safety.{
  is_read_only, is_parallel, build_execution_intent_lem, admits, is_execute, is_runtime,
  build_execution_intent-build_routing_decision,
}

abbrev planned : IntentRouteResult
planned = record {
  intent_name = some "weather";
  contract = none;
  route_status = miss;
  diagnostic = some "gate3_entry: none";
  route_candidate = some (("match", " weather ") ∷ []);
  delegate_reason = none;
  safety_valve_outcome = none;
  arbitration_result = some " Unclassified";
}

abbrev guarded : IntentRouteResult
guarded = record planned { route_status = needs_explicit_approval }

program : Unit {0}
unfolding get norm strip lower has_substring starts_with contains sorted arbitration_of is_direct
    is_delegated resolve_routing_stage delegates build_routing_decision from_payload
    candidate_name_of build_arbitration_decision allowed_of denied_of contract_intent_of
    needs_approval needs_replan build_execution_intent is_read_only is_parallel
program = tt

planned_path : (build_execution_intent planned none none).path_type ≡ gate3_path
unfolding program
planned_path = refl

candidate_read :
    (build_arbitration_decision
      (record planned { arbitration_result = some "confirm_candidate" })
      none
      none).candidate_name
    ≡ some "weather"
unfolding program
candidate_read = refl

build_execution_intent_lem_example :
    (is_parallel (build_execution_intent guarded (some "which?") none).concurrency_class
      ≡ is_read_only (build_execution_intent guarded (some "which?") none).operation_kind)
    × ((build_execution_intent guarded (some "which?") none).approval_required
        ≡ needs_approval guarded.route_status)
    × ((build_execution_intent guarded (some "which?") none).approval_required
          && is_read_only (build_execution_intent guarded (some "which?") none).operation_kind
        ≡ false)
build_execution_intent_lem_example = build_execution_intent_lem guarded (some "which?") none

-- a delegated result that routing had already executed is reported as delegated, and runs directly
delegated_path :
    let r = record planned {
      route_status = direct_success;
      arbitration_result = none;
      safety_valve_outcome = some "delegate";
    } in
    ((build_routing_decision r).routing_stage ≡ gate2_delegate)
    × ((build_execution_intent r none none).path_type ≡ direct)
unfolding program
delegated_path = (refl, refl)

build_execution_intent-build_routing_decision_example :
    (admits
        (build_routing_decision planned).routing_stage
        (build_execution_intent planned none none).path_type
      ≡ true)
    × (is_execute (build_routing_decision planned).action
          && not (is_runtime (build_execution_intent planned none none).path_type)
        ≡ false)
unfolding program
build_execution_intent-build_routing_decision_example =
    build_execution_intent-build_routing_decision planned none refl
