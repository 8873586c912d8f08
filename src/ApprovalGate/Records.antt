-- ===== src/ApprovalGate/Records.antt =====
-- The records of zen_claw/agent/approval_gate.py. `Args` stands for JSON objects, `request_hash` for the
-- hash of a request; the clock counts in milliseconds.
use zen_claw.Base.{ℕ, String, Bool, true, false, Option, none, List, [], ◌∷◌, ◌==◌, if◌then◌else◌}
use zen_claw.Base.Dict.{Dict}
use zen_claw.Base.Text.{norm, strip}
use zen_claw.Base.Sets.{contains}

pub data ApprovalStatus : Type 0 where
  pending approved denied expired : ApprovalStatus

unfoldable pub is_pending : ApprovalStatus → Bool
is_pending pending = true
is_pending _ = false

unfoldable pub is_approved : ApprovalStatus → Bool
is_approved approved = true
is_approved _ = false

-- `status.value`
unfoldable pub value : ApprovalStatus → String
value pending = "pending"
value approved = "approved"
value denied = "denied"
value expired = "expired"

pub record PendingApproval (Args : Type 0) : Type 0 where
  pub approval_id : String
  pub session_id : String
  pub tool_name : String
  pub tool_args : Args
  pub reason : String
  pub created_at_ms : ℕ
  pub trace_id : String
  pub capability : String
  pub resource_scope : Args
  pub security_context : Args
  pub policy_snapshot_hash : String
  pub request_hash : String
  pub sidecar_target : String
  pub actor : String
  pub decision_basis : String
  pub policy_reason : Option Args
  pub ttl_seconds : ℕ
  pub status : ApprovalStatus
  pub decided_at_ms : Option ℕ

pub record AuditEvent : Type 0 where
  pub trace_id : String
  pub event_type : String
  pub approval_id : String

pub record Gate (Args : Type 0) : Type 0 where
  pub sensitive_tools : List String
  pub ttl : ℕ
  pub pending : Dict (PendingApproval Args)
  pub audit : List AuditEvent

-- `_SENSITIVE_TOOLS`
abbrev pub default_sensitive_tools : List String
default_sensitive_tools =
    "write_file" ∷ "edit_file" ∷ "exec" ∷ "spawn" ∷ "service_start" ∷ "service_stop"
    ∷ "social_platform_post" ∷ "social_platform_like" ∷ "credential_store" ∷ []

unfoldable pub is_sensitive : {Args : Type 0} → Gate Args → String → Bool
is_sensitive g tool_name = contains (norm tool_name) g.sensitive_tools

-- `a or b` of texts
abbrev pub or_text : String → String → String
or_text a b = if a == "" then b else a

-- The arguments of `request_approval`, with the identifier that it draws and its clock.
pub record Request (Args : Type 0) : Type 0 where
  pub session_id : String
  pub tool_name : String
  pub tool_args : Args
  pub reason : String
  pub trace_id : String
  pub capability : String
  pub resource_scope : Args
  pub security_context : Args
  pub policy_snapshot_hash : String
  pub sidecar_target : String
  pub actor : String
  pub decision_basis : String
  pub policy_reason : Option Args
  pub approval_id : String
  pub now : ℕ

module _ {Args : Type 0} where
  -- `trace_id or rec.trace_id or rec.approval_id`, where `trace_id` is the record's own
  unfoldable pub audit_event : String → PendingApproval Args → AuditEvent
  audit_event event_type rec = record {
    trace_id = or_text rec.trace_id rec.approval_id;
    event_type = event_type;
    approval_id = rec.approval_id;
  }

  unfoldable pub make_record : (Request Args → String) → ℕ → Request Args → PendingApproval Args
  make_record request_hash ttl r = record {
    approval_id = r.approval_id;
    session_id = r.session_id;
    tool_name = r.tool_name;
    tool_args = r.tool_args;
    reason = r.reason;
    created_at_ms = r.now;
    trace_id = strip r.trace_id;
    capability = norm (or_text r.capability r.tool_name);
    resource_scope = r.resource_scope;
    security_context = r.security_context;
    policy_snapshot_hash = strip r.policy_snapshot_hash;
    request_hash = request_hash r;
    sidecar_target = strip r.sidecar_target;
    actor = strip r.actor;
    decision_basis = strip (or_text r.decision_basis r.reason);
    policy_reason = r.policy_reason;
    ttl_seconds = ttl;
    status = pending;
    decided_at_ms = none;
  }
