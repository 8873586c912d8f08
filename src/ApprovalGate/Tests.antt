-- ===== src/ApprovalGate/Tests.antt =====
-- A small gate, whose tools take a number.
use zen_claw.Base.{
  ℕ, ◌≤◌, String, ◌≡◌, refl, none, [], ◌∷◌, List, count, find_first, keep, eqb, if◌then◌else◌,
}
use zen_claw.Base.Dict.{get as dict_get, put, remove, values}
use zen_claw.Base.Text.{strip, lower, norm, upper}
use zen_claw.ApprovalGate.Records.{
  Request, Gate, PendingApproval, make_record, audit_event, is_pending, is_approved, value,
}
use zen_claw.ApprovalGate.Gate.{
  request_approval, decide, approve, deny, is_stale, expire_rows, expire_old, lookup, list_pending,
  is_granted, consume_approved, record_execution_finished,
}
use zen_claw.ApprovalGate.Rows.{is_event}
use zen_claw.ApprovalGate.Lifecycle.{
  Call, requesting, approving, consuming, new, step, run, run_started,
}

abbrev hash : Request ℕ → String
hash r = "h"

abbrev dumps : ℕ → String
dumps n = if eqb n 0 then "0" else "1"

abbrev request : Request ℕ
request = record {
  session_id = "s";
  tool_name = "exec";
  tool_args = 1;
  reason = "why";
  trace_id = "";
  capability = "";
  resource_scope = 0;
  security_context = 0;
  policy_snapshot_hash = "";
  sidecar_target = "";
  actor = "";
  decision_basis = "";
  policy_reason = none;
  approval_id = "AB";
  now = 1000;
}

abbrev waiting : Gate ℕ
waiting = (request_approval hash (new ("exec" ∷ []) 60) request).0

abbrev calls : List (Call ℕ)
calls =
    requesting request
    ∷ consuming "s" "exec" 1
    ∷ approving " ab" 2000
    ∷ consuming "s" "exec" 1
    ∷ consuming "s" "exec" 1
    ∷ []

program : Unit {0}
unfolding count find_first keep dict_get put remove values strip lower norm upper request_approval
    make_record audit_event decide approve deny is_stale is_pending is_approved expire_rows
    expire_old lookup list_pending value is_granted consume_approved record_execution_finished
    is_event step run
program = tt

calls_start_one :
    count
      (is_event "approval.execution_started" "AB")
      (run hash dumps (new ("exec" ∷ []) 60) calls).audit
    ≡ 1
unfolding program
calls_start_one = refl

run_started_example :
    count
      (is_event "approval.execution_started" "AB")
      (run hash dumps (new ("exec" ∷ []) 60) calls).audit
    ≤ count (is_event "approval.approved" "AB") (run hash dumps (new ("exec" ∷ []) 60) calls).audit
run_started_example = run_started hash dumps ("exec" ∷ []) 60 calls "AB"

abbrev waiting_record : PendingApproval ℕ
waiting_record = make_record hash 60 request
