-- ===== src/ApprovalGate/Ledger.antt =====
-- The audit trail of zen_claw/agent/approval_gate.py: what it says of approvals and executions.
use zen_claw.Base.{
  ℕ, ◌+◌, ◌≤◌, String, ◌≡◌, refl, true, false, some, [], ◌∷◌, ◌++◌, ◌==◌, arith, count,
  count-append, find_first, find_first-test, Bool-cases, Option-cases, inl, inr,
}
use zen_claw.Base.Dict.{get as dict_get, put, values}
use zen_claw.Base.Text.{strip, upper}
use Prim.Native.String.{◌++◌ as ◌++s◌}
use zen_claw.ApprovalGate.Records.{
  ApprovalStatus, pending, approved, denied, expired, is_pending, is_approved, value,
  PendingApproval, Gate, Request, audit_event, make_record,
}
use zen_claw.ApprovalGate.Gate.{
  request_approval, decided, decide, expire_rows, expire_old, is_granted, consume_approved,
  record_execution_finished,
}
use zen_claw.ApprovalGate.Rows.{
  is_event, is_usable, IsKeyed, count-values-put, count-values-remove_found, count-expire_rows,
  expire_rows_events, IsKeyed-put, IsKeyed-remove, IsKeyed-expire_rows, IsKeyed-get,
}

decision_event :
    (status : ApprovalStatus)
    → (("approval." ++s value status == "approval.execution_started") ≡ false)
      × (("approval." ++s value status == "approval.approved") ≡ is_approved status)
unfolding value is_approved
decision_event pending = (refl, refl)
decision_event approved = (refl, refl)
decision_event denied = (refl, refl)
decision_event expired = (refl, refl)

-- What is claimed of a gate: its records stand under their identifiers, and for each identifier the
-- executions and the approvals that may still be spent are no more than the approvals given.
pub record IsBalanced {Args : Type 0} (g : Gate Args) : Type 0 where
  pub keyed : IsKeyed g.pending
  pub balance :
      (id : String)
      → count (is_event "approval.execution_started" id) g.audit
          + count (is_usable id) (values g.pending)
        ≤ count (is_event "approval.approved" id) g.audit

module _ {Args : Type 0} where
  pub request-IsBalanced :
      (request_hash : Request Args → String) (g : Gate Args) (r : Request Args)
      → IsBalanced g
      → IsBalanced (request_approval request_hash g r).0
  unfolding request_approval
  request-IsBalanced request_hash g r h =
      let rec = make_record request_hash g.ttl r in
      let e = audit_event "approval.requested" rec in
      record {
        keyed = IsKeyed-put g.pending r.approval_id rec h.keyed (unfold make_record in refl);
        balance = λ id.
            unfold is_event is_usable is_approved make_record audit_event count in
            ground (
              arith,
              h.balance id,
              count-append (is_event "approval.execution_started" id) g.audit (e ∷ []),
              count-append (is_event "approval.approved" id) g.audit (e ∷ []),
              count-values-put (is_usable id) g.pending r.approval_id rec,
            );
      }

  -- the same for any record that is written with the event that tells of it
  decided-IsBalanced :
      (g : Gate Args) (aid : String) (status : ApprovalStatus) (now : ℕ)
      (rec : PendingApproval Args)
      → dict_get g.pending aid ≡ some rec
      → IsBalanced g
      → IsBalanced (record g {
        pending = put g.pending aid (decided status now rec);
        audit = g.audit ++ audit_event ("approval." ++s value status) (decided status now rec) ∷ [];
      })
  decided-IsBalanced g aid status now rec found h = record {
    keyed =
        IsKeyed-put g.pending aid (decided status now rec) h.keyed
          (IsKeyed-get g.pending aid rec h.keyed found);
    balance = λ id.
        let e = audit_event ("approval." ++s value status) (decided status now rec) in
        unfold is_event is_usable audit_event count in
        ground (
          arith,
          h.balance id,
          decision_event status,
          count-append (is_event "approval.execution_started" id) g.audit (e ∷ []),
          count-append (is_event "approval.approved" id) g.audit (e ∷ []),
          count-values-put (is_usable id) g.pending aid (decided status now rec),
        );
  }

  pub decide-IsBalanced :
      (g : Gate Args) (approval_id : String) (status : ApprovalStatus) (now : ℕ)
      → IsBalanced g
      → IsBalanced (decide g approval_id status now).0
  unfolding decide
  decide-IsBalanced g approval_id status now h =
      elim (Option-cases (dict_get g.pending (upper (strip approval_id)))) [
        | inl e ↦ rw (e, decide) h
        | inr (rec, e) ↦ elim (Bool-cases (is_pending rec.status)) [
          | inr f ↦ rw (e, f, decide) h
          | inl f ↦
              rw (e, f, decide)
                (decided-IsBalanced g (upper (strip approval_id)) status now rec e h)
        ]
      ]

  pub expire_old-IsBalanced :
      (g : Gate Args) (now : ℕ) → IsBalanced g → IsBalanced (expire_old g now)
  unfolding expire_old
  expire_old-IsBalanced g now h =
      let events = (expire_rows g.ttl now g.pending).1 in
      record {
        keyed = IsKeyed-expire_rows g.ttl now g.pending h.keyed;
        balance = λ id. ground (
          arith,
          h.balance id,
          count-expire_rows g.ttl now g.pending id,
          count-append (is_event "approval.execution_started" id) g.audit events,
          count-append (is_event "approval.approved" id) g.audit events,
          expire_rows_events g.ttl now g.pending "approval.execution_started" id refl,
          expire_rows_events g.ttl now g.pending "approval.approved" id refl,
        );
      }

  pub consume-IsBalanced :
      (dumps : Args → String) (g : Gate Args) (session_id tool_name : String) (tool_args : Args)
      → IsBalanced g
      → IsBalanced (consume_approved dumps g session_id tool_name tool_args).0
  unfolding consume_approved
  consume-IsBalanced dumps g session_id tool_name tool_args h =
      let test = is_granted dumps session_id tool_name tool_args in
      elim (Option-cases (find_first test (values g.pending))) [
        | inl e ↦ rw (e, consume_approved) h
        | inr (rec, e) ↦
            let started = audit_event "approval.execution_started" rec in
            let usable : is_approved rec.status ≡ true =
              unfold is_granted in ground (arith, find_first-test test (values g.pending) rec e) in
            rw (e, consume_approved)
              (record {
                keyed = IsKeyed-remove g.pending rec.approval_id h.keyed;
                balance = λ id.
                    unfold is_event is_usable audit_event count in
                    ground (
                      arith,
                      h.balance id,
                      usable,
                      count-append (is_event "approval.execution_started" id) g.audit
                          (started ∷ []),
                      count-append (is_event "approval.approved" id) g.audit (started ∷ []),
                      count-values-remove_found (is_usable id) test g.pending rec h.keyed e,
                    );
              })
      ]

  pub finished-IsBalanced :
      (g : Gate Args) (rec : PendingApproval Args)
      → IsBalanced g
      → IsBalanced (record_execution_finished g rec)
  unfolding record_execution_finished
  finished-IsBalanced g rec h =
      let e = audit_event "approval.execution_finished" rec in
      record {
        keyed = h.keyed;
        balance = λ id.
            unfold is_event audit_event count in
            ground (
              arith,
              h.balance id,
              count-append (is_event "approval.execution_started" id) g.audit (e ∷ []),
              count-append (is_event "approval.approved" id) g.audit (e ∷ []),
            );
      }
