-- ===== src/Registry/Gates.antt =====
-- The gates of `ToolRegistry.execute` (zen_claw/agent/tools/registry.py) before the quota: kill
-- switch, skill, profile, policy, envelope, resource.
use zen_claw.Base.{
  String, Bool, true, false, not, ◌&&◌, ◌||◌, Option, none, some, List, [], ◌∷◌, ◌==◌,
  if◌then◌else◌,
}
use zen_claw.Base.Text.{norm}
use zen_claw.Base.Strings.{before}
use zen_claw.Base.Dict.{Dict}
use zen_claw.Base.Sets.{contains}
use zen_claw.Capability.Request.{Scope, CapabilityRequest, text, capability_request_from_tool}
use zen_claw.Capability.Policy.{Library, CapabilityPolicyDecision}
use zen_claw.Capability.Evaluate as Evaluate
use zen_claw.Capability.Evaluate.{flag_of}
use zen_claw.Gateway.Envelope.{
  Crypto, Envelope, Context, Snapshot, verify_gateway_envelope, extract_security_context,
}
use zen_claw.Registry.Results.{ToolResult, permission, failure}
use zen_claw.Registry.State.{ToolRegistry, SecurityPolicy, envelope_or_empty}
use zen_claw.ToolPolicy.Rules as Rules
use zen_claw.ToolPolicy.Rules.{ToolPolicyDecision, normalize_names}
use Prim.Native.String.{◌++◌}

-- A gate is open, or gives the result of the call and whether the audit worker is told of it; an
-- exception leaves `execute`.
pub data Gate : Type 0 where
  opened raised : Gate
  closed : ToolResult → Bool → Gate

-- `a; b`: the second gate after the first
abbrev pub then_gate : Gate → Gate → Gate
then_gate opened next = next
then_gate raised next = raised
then_gate (closed result audited) next = closed result audited

-- `"*" in names or token in names`
unfoldable pub lists : List String → String → Bool
lists names token = contains "*" names || contains token names

abbrev pub lists_or_all : Option (List String) → String → Bool
lists_or_all none token = true
lists_or_all (some names) token = lists names token

-- `_HIGH_RISK_TOOL_NAMES`
abbrev pub high_risk_tool_names : List String
high_risk_tool_names =
    "exec" ∷ "web_fetch" ∷ "web_search" ∷ "message" ∷ "social_platform_post"
    ∷ "social_platform_like" ∷ "browser_open" ∷ "browser_click" ∷ "browser_type" ∷ "browser_extract"
    ∷ "browser_screenshot" ∷ "browser_save_session" ∷ "browser_load_session" ∷ "sessions_spawn"
    ∷ "sessions_list" ∷ "sessions_kill" ∷ "sessions_read" ∷ "sessions_write" ∷ "sessions_signal"
    ∷ "sessions_resize" ∷ []

module _ (r : ToolRegistry) (name : String) where
  unfoldable pub kill_switch_gate : Gate
  kill_switch_gate =
      let reason = r.kill_switch_reason in
      if r.kill_switch_enabled
      then closed
          (failure permission
            ("Tool automation is disabled by global kill switch"
              ++ (if reason == "" then "" else " (" ++ reason ++ ")"))
            "tool_kill_switch_enabled")
          false
      else opened

  unfoldable pub skill_gate : Gate
  skill_gate =
      if lists_or_all r.skill_allowed_tools (norm name)
      then opened
      else closed
          (failure permission
            ("Tool '" ++ norm name ++ "' is not permitted by active skill permission gate")
            "skill_permission_denied")
          false

  unfoldable pub profile_gate : Gate
  profile_gate =
      if lists r.profile_denied_tools (norm name)
      then closed
          (failure permission
            ("Tool '" ++ norm name ++ "' is denied by active agent profile binding")
            "profile_tool_denied")
          false
      else if lists_or_all r.profile_allowed_tools (norm name)
      then opened
      else closed
          (failure permission
            ("Tool '" ++ norm name ++ "' is not permitted by active agent profile binding")
            "profile_tool_not_allowlisted")
          false

  unfoldable pub policy_gate : Gate
  policy_gate =
      let d = Rules.evaluate r.policy name in
      if d.allowed then opened else closed (failure permission d.reason.message d.code) true

-- the envelope of the request, where one is required
unfoldable pub context_gate : Crypto → String → Option Envelope → Gate
context_gate k name none =
    closed
      (failure permission ("Tool '" ++ name ++ "' requires a signed gateway envelope")
        "gateway_envelope_required")
      true
context_gate k name (some envelope) =
    let (valid, why) = verify_gateway_envelope k envelope in
    if valid
    then opened
    else closed
        (failure permission
          ("Tool '" ++ name ++ "' requires a valid signed gateway envelope: " ++ why)
          "gateway_envelope_invalid")
        true

-- `_requires_gateway_envelope`
unfoldable pub requires_gateway_envelope : String → Bool
requires_gateway_envelope name = contains (norm name) high_risk_tool_names

unfoldable pub envelope_gate : ToolRegistry → Crypto → String → Gate
envelope_gate r k name =
    if requires_gateway_envelope name then context_gate k name r.request_context else opened

-- `_identity_context`
unfoldable pub identity_context : ToolRegistry → Context
identity_context r = extract_security_context (envelope_or_empty r.request_context)

abbrev flags_of : Option Snapshot → Dict Bool
flags_of none = []
flags_of (some s) = s.flags

abbrev grants_of : Option (List String) → List String
grants_of none = []
grants_of (some grants) = grants

-- `_evaluate_capability_grants`; a grant of only white space never counts
unfoldable pub capability_grants_gate : ToolRegistry → String → Gate
capability_grants_gate r capability =
    let identity = identity_context r in
    let subject_type = norm (text identity.entries "subject_type") in
    let grants = normalize_names (grants_of identity.capability_grants) in
    let normalized = norm capability in
    let family = before "." normalized in
    if subject_type == "" || subject_type == "agent"
    then opened
    else if lists grants normalized
    then opened
    else if not (family == "") && contains (family ++ ".*") grants
    then opened
    else closed
        (failure permission
          ("Subject '" ++ subject_type ++ "' is not granted capability '" ++ normalized ++ "'")
          "capability_grant_denied")
        true

abbrev decision_gate : Option CapabilityPolicyDecision → Gate
decision_gate none = raised
decision_gate (some d) =
    if d.allowed then opened else closed (failure permission d.reason d.error_code) true

-- `_evaluate_resource_policy` for a request that a tool makes
unfoldable pub request_gate :
    ToolRegistry → Library → SecurityPolicy → Option CapabilityRequest → Gate
request_gate r lib policy none = opened
request_gate r lib policy (some request) =
    let identity = identity_context r in
    then_gate (capability_grants_gate r request.capability) (
      decision_gate (
        Evaluate.evaluate lib (some policy.rules) identity.entries
          (flags_of identity.policy_snapshot) (some request)))

-- `_evaluate_resource_policy`
unfoldable pub resource_gate : ToolRegistry → Library → String → Scope → Gate
resource_gate r lib name params = elim r.security_policy [
  | none ↦
      if flag_of (flags_of (identity_context r).policy_snapshot) "production_hardening"
      then closed
          (failure permission "security policy not loaded under production hardening"
            "resource_scope_policy_missing")
          true
      else opened
  | some policy ↦
      request_gate r lib policy
        (capability_request_from_tool name params (identity_context r).entries)
]

-- the gates that no argument of the call can influence
unfoldable pub name_gates : ToolRegistry → String → Gate
name_gates r name =
    then_gate (kill_switch_gate r name)
      (then_gate (skill_gate r name) (then_gate (profile_gate r name) (policy_gate r name)))

-- everything before the quota
unfoldable pub gates : ToolRegistry → Crypto → Library → String → Scope → Gate
gates r k lib name params =
    then_gate (name_gates r name)
      (then_gate (envelope_gate r k name) (resource_gate r lib name params))
