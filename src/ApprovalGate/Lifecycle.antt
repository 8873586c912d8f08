-- ===== src/ApprovalGate/Lifecycle.antt =====
-- Runs of the gate of zen_claw/agent/approval_gate.py, and what becomes of a request.
use zen_claw.Base.{
  ℕ, ◌≤◌, String, ◌≡◌, refl, true, none, some, List, [], ◌∷◌, arith, count, find_first,
  find_first-test, Bool-cases, Option-cases, inl, inr, if◌then◌else◌,
}
use zen_claw.Base.Dict.{Dict, get as dict_get, values, get-remove}
use zen_claw.Base.Text.{strip, upper}
use zen_claw.ApprovalGate.Records.{approved, expired, is_pending, PendingApproval, Gate, Request}
use zen_claw.ApprovalGate.Gate.{
  request_approval, decided, decide, approve, deny, is_stale, expire_rows, expire_old, lookup,
  list_pending, is_granted, consume_approved, record_execution_finished,
}
use zen_claw.ApprovalGate.Rows.{is_event}
use zen_claw.ApprovalGate.Ledger.{
  IsBalanced, request-IsBalanced, decide-IsBalanced, expire_old-IsBalanced, consume-IsBalanced,
  finished-IsBalanced,
}
use text.Mathlib.TextPositions.{eq_refl}

-- A call of the gate with its arguments.
pub data Call (Args : Type 0) : Type 0 where
  requesting : Request Args → Call Args
  approving denying getting : (approval_id : String) (now : ℕ) → Call Args
  listing : (session_id : String) (now : ℕ) → Call Args
  consuming : (session_id tool_name : String) (tool_args : Args) → Call Args
  finishing : PendingApproval Args → Call Args

abbrev pub new : {Args : Type 0} → List String → ℕ → Gate Args
new sensitive_tools ttl = record {
  sensitive_tools = sensitive_tools;
  ttl = ttl;
  pending = [];
  audit = [];
}

module _ {Args : Type 0} (request_hash : Request Args → String) (dumps : Args → String) where
  unfoldable pub step : Gate Args → Call Args → Gate Args
  step g (requesting r) = (request_approval request_hash g r).0
  step g (approving approval_id now) = (approve g approval_id now).0
  step g (denying approval_id now) = (deny g approval_id now).0
  step g (getting approval_id now) = (lookup g approval_id now).0
  step g (listing session_id now) = (list_pending g session_id now).0
  step g (consuming session_id tool_name tool_args) =
      (consume_approved dumps g session_id tool_name tool_args).0
  step g (finishing rec) = record_execution_finished g rec

  unfoldable pub run : Gate Args → List (Call Args) → Gate Args
  run g [] = g
  run g (call ∷ calls) = run (step g call) calls

  step-IsBalanced : (g : Gate Args) (call : Call Args) → IsBalanced g → IsBalanced (step g call)
  unfolding step approve deny lookup list_pending
  step-IsBalanced g (requesting r) h = request-IsBalanced request_hash g r h
  step-IsBalanced g (approving approval_id now) h = decide-IsBalanced g approval_id approved now h
  step-IsBalanced g (denying approval_id now) h = decide-IsBalanced g approval_id _ now h
  step-IsBalanced g (getting approval_id now) h = expire_old-IsBalanced g now h
  step-IsBalanced g (listing session_id now) h = expire_old-IsBalanced g now h
  step-IsBalanced g (consuming session_id tool_name tool_args) h =
      consume-IsBalanced dumps g session_id tool_name tool_args h
  step-IsBalanced g (finishing rec) h = finished-IsBalanced g rec h

  run-IsBalanced_from :
      (g : Gate Args) (calls : List (Call Args)) → IsBalanced g → IsBalanced (run g calls)
  unfolding run
  run-IsBalanced_from g [] h = h
  run-IsBalanced_from g (call ∷ calls) h =
      run-IsBalanced_from (step g call) calls (step-IsBalanced g call h)

  -- After any calls of a new gate, for each identifier the audit trail shows no more executions of
  -- tools under it than approvals given to it.
  pub run_started :
      (sensitive_tools : List String) (ttl : ℕ) (calls : List (Call Args)) (id : String)
      → count (is_event "approval.execution_started" id) (run (new sensitive_tools ttl) calls).audit
        ≤ count (is_event "approval.approved" id) (run (new sensitive_tools ttl) calls).audit
  run_started sensitive_tools ttl calls id =
      let start : IsBalanced (new {Args = Args} sensitive_tools ttl) = record {
        keyed = tt;
        balance = λ i. unfold count values in omega arith;
      } in
      omega (arith, (run-IsBalanced_from (new sensitive_tools ttl) calls start).balance id)

module _ {Args : Type 0} where
  -- What is consumed was approved, for that session, tool and arguments, and is not in the gate any
  -- more: the same approval cannot be spent again.
  pub consume_approved-granted :
      (dumps : Args → String) (g : Gate Args) (session_id tool_name : String) (tool_args : Args)
      (rec : PendingApproval Args)
      → (consume_approved dumps g session_id tool_name tool_args).1 ≡ some rec
      → (is_granted dumps session_id tool_name tool_args rec ≡ true)
        × (dict_get
              (consume_approved dumps g session_id tool_name tool_args).0.pending
              rec.approval_id
            ≡ none)
  unfolding consume_approved
  consume_approved-granted dumps g session_id tool_name tool_args rec h =
      let test = is_granted dumps session_id tool_name tool_args in
      elim (Option-cases (find_first test (values g.pending))) [
        | inl e ↦ ground (arith, e)
        | inr (x, e) ↦
            let same : x ≡ rec = ground (arith, e, h) in
            rw (e, consume_approved)
              (
                ground (arith, same, find_first-test test (values g.pending) x e),
                rw (get-remove, same) (rw (eq_refl rec.approval_id)),
              )
      ]

  get-expire_rows :
      (ttl now : ℕ) (d : Dict (PendingApproval Args)) (k : String) (rec : PendingApproval Args)
      → dict_get d k ≡ some rec
      → dict_get (expire_rows ttl now d).0 k
        ≡ some (if is_stale ttl now rec then decided expired now rec else rec)
  unfolding dict_get expire_rows
  get-expire_rows ttl now [] k rec h = ground arith
  get-expire_rows ttl now ((j, w) ∷ d) k rec h = elim (Bool-cases (is_stale ttl now w)) [
    | inl e ↦ rw e (ground (arith, h, e, get-expire_rows ttl now d k rec))
    | inr e ↦ rw e (ground (arith, h, e, get-expire_rows ttl now d k rec))
  ]

  -- Whether a request that has outlived its time can be approved depends on what was called before:
  -- an approval that comes first succeeds, one that comes after a look at the requests is refused.
  pub approve_stale :
      (g : Gate Args) (approval_id : String) (now : ℕ) (rec : PendingApproval Args)
      → dict_get g.pending (upper (strip approval_id)) ≡ some rec
      → is_stale g.ttl now rec ≡ true
      → ((approve g approval_id now).1 ≡ some (decided approved now rec))
        × ((approve (lookup g approval_id now).0 approval_id now).1 ≡ none)
  unfolding approve decide lookup expire_old
  approve_stale g approval_id now rec h stale =
      let waits : is_pending rec.status ≡ true = unfold is_stale in ground (arith, stale) in
      let gone : dict_get (expire_rows g.ttl now g.pending).0 (upper (strip approval_id))
          ≡ some (decided expired now rec) =
        rw stale at (get-expire_rows g.ttl now g.pending (upper (strip approval_id)) rec h) in
      (rw (h, waits, decide) refl, rw (gone, decide) (unfold is_pending in refl))
