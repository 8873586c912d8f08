-- ===== src/Node/Data.antt =====
-- The records that zen_claw/node/service.py keeps in its JSON store, with the fields that it writes.
use zen_claw.Base.{ℕ, String, Bool, true, false, Option, List, [], ◌∷◌}
use zen_claw.Base.Dict.{Dict}
use zen_claw.Node.Payload.{Payload}

pub record Policy : Type 0 where
  pub allowed_task_types : List String
  pub allow_gateway_tasks : Bool
  pub max_running_tasks : ℕ
  pub require_approval_task_types : List String
  pub approval_timeout_sec : ℕ
  pub approval_required_count : ℕ

-- The policy that `register_node` writes and `_get_node_policy` falls back on.
abbrev pub default_policy : Policy
default_policy = record {
  allowed_task_types = "*" ∷ [];
  allow_gateway_tasks = true;
  max_running_tasks = 1;
  require_approval_task_types = [];
  approval_timeout_sec = 0;
  approval_required_count = 1;
}

pub record Node : Type 0 where
  pub node_id : String
  pub name : String
  pub platform : String
  pub capabilities : List String
  pub policy : Policy
  pub token : String
  pub token_issued_at_ms : ℕ
  pub token_expires_at_ms : Option ℕ
  pub token_ttl_sec : ℕ
  pub token_revoked : Bool
  pub status : String
  pub last_seen_ms : ℕ
  pub created_at_ms : ℕ
  pub updated_at_ms : ℕ

pub data Status : Type 0 where
  pending_approval pending leased running done error rejected : Status

pub record Approval : Type 0 where
  pub required : Bool
  pub approved_by : String
  pub approved_at_ms : Option ℕ
  pub rejected_by : String
  pub rejected_at_ms : Option ℕ
  pub note : String
  pub expires_at_ms : Option ℕ
  pub required_count : ℕ
  pub approvals : List String

pub record Task : Type 0 where
  pub task_id : String
  pub trace_id : String
  pub node_id : String
  pub task_type : String
  pub payload : Payload
  pub idempotency_key : String
  pub required_capability : String
  pub status : Status
  pub approval : Approval
  pub created_at_ms : ℕ
  pub updated_at_ms : ℕ
  pub leased_by : Option String
  pub result : Option Payload
  pub error : Option String

-- The part of an approval event that its hash covers, and the event.
pub record BaseEvent : Type 0 where
  pub event_id : String
  pub task_id : String
  pub node_id : String
  pub action : String
  pub actor : String
  pub note : String
  pub at_ms : ℕ
  pub prev_hash : String

pub record Event : Type 0 where
  pub base : BaseEvent
  pub hash : String
  pub signature : String
  pub signature_alg : String
  pub trace_id : String

pub record Store : Type 0 where
  pub nodes : Dict Node
  pub tasks : List Task
  pub approval_events : List Event

abbrev pub empty : Store
empty = record { nodes = []; tasks = []; approval_events = [] }

-- What `__init__` reads from its arguments and the environment.
pub record Config : Type 0 where
  pub audit_secret : String
  pub default_token_ttl_sec : ℕ
  pub idempotency_window_sec : ℕ

-- The library functions that the service hashes and measures with: SHA-256 and HMAC-SHA-256 of an
-- event's canonical JSON, and the number of bytes of a payload's JSON.
pub record Codec : Type 0 where
  pub sha256 : BaseEvent → String
  pub hmac : String → BaseEvent → String
  pub json_bytes : Payload → ℕ

unfoldable pub is_active : Status → Bool
is_active leased = true
is_active running = true
is_active _ = false

unfoldable pub is_pending : Status → Bool
is_pending pending = true
is_pending _ = false

unfoldable pub is_pending_approval : Status → Bool
is_pending_approval pending_approval = true
is_pending_approval _ = false
