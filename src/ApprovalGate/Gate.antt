-- ===== src/ApprovalGate/Gate.antt =====
-- `ApprovalGate` of zen_claw/agent/approval_gate.py. `dumps` stands for the canonical text
-- of JSON objects. The JSON file and the message to the user are not modelled; the audit events are kept as a list.
use zen_claw.Base.{
  ℕ, ◌-◌, ◌*◌, String, Bool, not, ◌&&◌, Option, none, some, List, [], ◌∷◌, ◌++◌, ◌==◌, ltb, leb,
  find_first, keep, if◌then◌else◌,
}
use zen_claw.Base.Dict.{Dict, get as dict_get, put, remove, values}
use zen_claw.Base.Text.{strip, upper}
use Prim.Native.String.{◌++◌ as str_append}
use zen_claw.ApprovalGate.Records.{
  ApprovalStatus, approved, denied, expired, is_pending, is_approved, value, PendingApproval,
  AuditEvent, Gate, Request, audit_event, make_record,
}

module _ {Args : Type 0} where
  unfoldable pub request_approval :
      (Request Args → String) → Gate Args → Request Args → Gate Args × PendingApproval Args
  request_approval request_hash g r =
      let rec = make_record request_hash g.ttl r in
      (
        record g {
          pending = put g.pending r.approval_id rec;
          audit = g.audit ++ audit_event "approval.requested" rec ∷ [];
        },
        rec,
      )

  abbrev pub decided : ApprovalStatus → ℕ → PendingApproval Args → PendingApproval Args
  decided status now rec = record rec { status = status; decided_at_ms = some now }

  -- `_decide`
  unfoldable pub decide :
      Gate Args → String → ApprovalStatus → ℕ → Gate Args × Option (PendingApproval Args)
  decide g approval_id status now =
      let aid = upper (strip approval_id) in
      elim (dict_get g.pending aid) [
        | none ↦ (g, none)
        | some rec ↦ if not (is_pending rec.status) then (g, none) else (
          record g {
            pending = put g.pending aid (decided status now rec);
            audit =
                g.audit
                ++ audit_event (str_append "approval." (value status)) (decided status now rec)
                  ∷ [];
          },
          some (decided status now rec),
        )
      ]

  unfoldable pub approve : Gate Args → String → ℕ → Gate Args × Option (PendingApproval Args)
  approve g approval_id now = decide g approval_id approved now

  unfoldable pub deny : Gate Args → String → ℕ → Gate Args × Option (PendingApproval Args)
  deny g approval_id now = decide g approval_id denied now

  -- `(now - created_at).total_seconds() > ttl`, of a record that is pending
  unfoldable pub is_stale : ℕ → ℕ → PendingApproval Args → Bool
  is_stale ttl now rec = is_pending rec.status && ltb (ttl * 1000) (now - rec.created_at_ms)

  unfoldable pub expire_rows :
      ℕ → ℕ → Dict (PendingApproval Args) → Dict (PendingApproval Args) × List AuditEvent
  expire_rows ttl now [] = ([], [])
  expire_rows ttl now ((key, rec) ∷ rows) =
      let (rest, events) = expire_rows ttl now rows in
      if is_stale ttl now rec
      then (
        (key, decided expired now rec) ∷ rest,
        audit_event "approval.expired" (decided expired now rec) ∷ events,
      )
      else ((key, rec) ∷ rest, events)

  -- `_expire_old`
  unfoldable pub expire_old : Gate Args → ℕ → Gate Args
  expire_old g now =
      let (rows, events) = expire_rows g.ttl now g.pending in
      record g { pending = rows; audit = g.audit ++ events }

  -- `get`
  unfoldable pub lookup : Gate Args → String → ℕ → Gate Args × Option (PendingApproval Args)
  lookup g approval_id now =
      let g' = expire_old g now in (g', dict_get g'.pending (upper (strip approval_id)))

  unfoldable pub insert_by_created :
      PendingApproval Args → List (PendingApproval Args) → List (PendingApproval Args)
  insert_by_created r [] = r ∷ []
  insert_by_created r (s ∷ ss) =
      if leb r.created_at_ms s.created_at_ms then r ∷ s ∷ ss else s ∷ insert_by_created r ss

  unfoldable pub sort_by_created : List (PendingApproval Args) → List (PendingApproval Args)
  sort_by_created [] = []
  sort_by_created (r ∷ rs) = insert_by_created r (sort_by_created rs)

  -- the empty session stands for none
  unfoldable pub list_pending : Gate Args → String → ℕ → Gate Args × List (PendingApproval Args)
  list_pending g session_id now =
      let g' = expire_old g now in
      let rows = keep (λ r. is_pending r.status) (values g'.pending) in
      (
        g',
        sort_by_created
            (if session_id == "" then rows else keep (λ r. r.session_id == session_id) rows),
      )

  -- the test of the loop of `consume_approved`
  unfoldable pub is_granted : (Args → String) → String → String → Args → PendingApproval Args → Bool
  is_granted dumps session_id tool_name tool_args rec =
      is_approved rec.status
      && (rec.session_id == session_id
          && (rec.tool_name == tool_name && dumps rec.tool_args == dumps tool_args))

  unfoldable pub consume_approved :
      (Args → String)
      → Gate Args
      → String
      → String
      → Args
      → Gate Args × Option (PendingApproval Args)
  consume_approved dumps g session_id tool_name tool_args =
      elim (find_first (is_granted dumps session_id tool_name tool_args) (values g.pending)) [
        | none ↦ (g, none)
        | some rec ↦ (
          record g {
            pending = remove g.pending rec.approval_id;
            audit = g.audit ++ audit_event "approval.execution_started" rec ∷ [];
          },
          some rec,
        )
      ]

  unfoldable pub record_execution_finished : Gate Args → PendingApproval Args → Gate Args
  record_execution_finished g rec = record g {
    audit = g.audit ++ audit_event "approval.execution_finished" rec ∷ [];
  }
