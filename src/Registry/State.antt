-- ===== src/Registry/State.antt =====
-- The state of `ToolRegistry` (zen_claw/agent/tools/registry.py) and the operations that change it.
use zen_claw.Base.{
  ℕ, String, Bool, false, Option, none, some, List, [], ◌∷◌, ◌==◌, map, is_some, if◌then◌else◌,
}
use zen_claw.Base.Text.{strip, norm, starts_with}
use zen_claw.Base.Strings.{or_text}
use zen_claw.Base.Dict.{Dict, get, put, remove}
use zen_claw.Base.Sets.{add_nonempty}
use zen_claw.Capability.Request.{Scope}
use zen_claw.Capability.Policy.{Policy}
use zen_claw.Gateway.Envelope.{Crypto, Envelope, Context, ensure_security_envelope}
use zen_claw.Quota.Window.{QuotaEngine}
use zen_claw.Registry.Results.{RawResult}
use zen_claw.ToolPolicy.Rules as Rules
use zen_claw.ToolPolicy.Rules.{Engine, normalize_names}

-- What a call of a tool's own code gives.
pub data Answer {ℓ} (A : Type ℓ) : Type ℓ where
  returned : A → Answer A
  permission_error : String → Answer A
  exception : String → Answer A

-- A tool, by the code that a subclass of `Tool` brings.
pub record Tool : Type 0 where
  pub name : String
  pub validate_params : Scope → Answer (List String)
  pub execute : Scope → Answer RawResult

-- `CapabilityQuotaConfig` of zen_claw/config/schema.py
pub record CapabilityQuotas : Type 0 where
  pub exec_max_per_hour : ℕ
  pub fetch_max_per_hour : ℕ
  pub search_max_per_hour : ℕ
  pub browser_max_per_hour : ℕ
  pub connector_write_max_per_hour : ℕ
  pub message_max_per_hour : ℕ
  pub sessions_max_per_hour : ℕ

-- `limit_for_capability`
unfoldable pub limit_for_capability : CapabilityQuotas → String → Option ℕ
limit_for_capability q capability =
    let c = norm capability in
    if c == "exec.run"
    then some q.exec_max_per_hour
    else if c == "network.fetch"
    then some q.fetch_max_per_hour
    else if c == "network.search"
    then some q.search_max_per_hour
    else if c == "network.browser"
    then some q.browser_max_per_hour
    else if starts_with c "connector."
    then some q.connector_write_max_per_hour
    else if c == "message.send"
    then some q.message_max_per_hour
    else if starts_with c "sessions."
    then some q.sessions_max_per_hour
    else none

-- The security policy config, as the registry reads it.
pub record SecurityPolicy : Type 0 where
  pub rules : Policy
  pub capability_quotas : Option CapabilityQuotas

pub record ToolRegistry : Type 0 where
  pub tools : Dict Tool
  pub policy : Engine
  pub quota_engine : Option QuotaEngine
  pub has_audit_worker : Bool
  pub kill_switch_enabled : Bool
  pub kill_switch_reason : String
  pub skill_allowed_tools : Option (List String)
  pub profile_allowed_tools : Option (List String)
  pub profile_denied_tools : List String
  pub active_skill_names : List String
  pub skill_permissions_mode : String
  pub security_policy : Option SecurityPolicy
  -- `none` is the empty dict
  pub request_context : Option Envelope

abbrev engine_or : Option Engine → Engine
engine_or none = Rules.init none
engine_or (some e) = e

-- `__init__`
unfoldable pub init : Option Engine → Option QuotaEngine → Bool → ToolRegistry
init policy quota_engine has_audit_worker = record {
  tools = [];
  policy = engine_or policy;
  quota_engine = quota_engine;
  has_audit_worker = has_audit_worker;
  kill_switch_enabled = false;
  kill_switch_reason = "";
  skill_allowed_tools = none;
  profile_allowed_tools = none;
  profile_denied_tools = [];
  active_skill_names = [];
  skill_permissions_mode = "off";
  security_policy = none;
  request_context = none;
}

abbrev pub keys {ℓ} : {V : Type ℓ} → Dict V → List String
keys [] = []
keys ((k, v) ∷ d) = k ∷ keys d

abbrev or_nothing : Option (List String) → List String
or_nothing none = []
or_nothing (some names) = names

abbrev normalize_allow : Option (List String) → Option (List String)
normalize_allow none = none
normalize_allow (some names) = some (normalize_names names)

unfoldable pub register : ToolRegistry → Tool → ToolRegistry
register r tool = record r { tools = put r.tools tool.name tool }

unfoldable pub unregister : ToolRegistry → String → ToolRegistry
unregister r name = record r { tools = remove r.tools name }

unfoldable pub has : ToolRegistry → String → Bool
has r name = is_some (get r.tools name)

unfoldable pub tool_names : ToolRegistry → List String
tool_names r = keys r.tools

unfoldable pub set_policy_scope :
    ToolRegistry → String → Option (List String) → Option (List String) → ToolRegistry
set_policy_scope r scope allow deny = record r {
  policy = Rules.set_scope r.policy scope allow deny;
}

unfoldable pub clear_policy_scope : ToolRegistry → String → ToolRegistry
clear_policy_scope r scope = record r { policy = Rules.clear_scope r.policy scope }

unfoldable pub set_security_policy : ToolRegistry → Option SecurityPolicy → ToolRegistry
set_security_policy r policy = record r { security_policy = policy }

abbrev pub empty_context : Context
empty_context = record {
  entries = [];
  dev_profile = false;
  trusted_local_only = false;
  policy_snapshot = none;
  capability_grants = none;
}

abbrev pub envelope_or_empty : Option Envelope → Envelope
envelope_or_empty (some e) = e
envelope_or_empty none = record {
  top = empty_context;
  security_context = none;
  gateway_meta = none;
  gateway_signature = none;
}

-- `set_request_context`
unfoldable pub set_request_context : Crypto → ToolRegistry → Option Envelope → ToolRegistry
set_request_context k r context = record r {
  request_context = some (ensure_security_envelope k (envelope_or_empty context));
}

unfoldable pub set_skill_allowed_tools : ToolRegistry → List String → ToolRegistry
set_skill_allowed_tools r allow = record r { skill_allowed_tools = some (normalize_names allow) }

unfoldable pub clear_skill_allowed_tools : ToolRegistry → ToolRegistry
clear_skill_allowed_tools r = record r { skill_allowed_tools = none }

unfoldable pub set_profile_tool_binding :
    ToolRegistry → Option (List String) → Option (List String) → ToolRegistry
set_profile_tool_binding r allow deny = record r {
  profile_allowed_tools = normalize_allow allow;
  profile_denied_tools = normalize_names (or_nothing deny);
}

unfoldable pub clear_profile_tool_binding : ToolRegistry → ToolRegistry
clear_profile_tool_binding r = record r { profile_allowed_tools = none; profile_denied_tools = [] }

-- `set_skill_attribution`: names without white space around them, each once
unfoldable pub set_skill_attribution : ToolRegistry → Option (List String) → String → ToolRegistry
set_skill_attribution r skill_names mode = record r {
  active_skill_names = add_nonempty [] (map strip (or_nothing skill_names));
  skill_permissions_mode = norm (or_text mode "off");
}

unfoldable pub set_kill_switch : ToolRegistry → Bool → Option String → ToolRegistry
set_kill_switch r enabled reason = record r {
  kill_switch_enabled = enabled;
  kill_switch_reason = elim reason [ none ↦ "" | some text ↦ strip text ];
}
