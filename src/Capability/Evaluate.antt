-- ===== src/Capability/Evaluate.antt =====
-- `CapabilityPolicyEvaluator.__init__` and `evaluate` of
-- zen_claw/agent/tools/capability_policy.py. `none` is an exception from reading a path or a URL.
use zen_claw.Base.{
  String, Bool, true, false, ◌||◌, Option, none, some, [], ◌∷◌, ◌==◌, if◌then◌else◌,
}
use zen_claw.Base.Text.{norm, starts_with}
use zen_claw.Base.Dict.{Dict, get}
use zen_claw.Capability.Request.{Scope, CapabilityRequest, entries_only}
use zen_claw.Capability.Policy.{
  Policy, flag, CapabilityPolicyDecision, Library, Evaluator, allow_for, deny_for, allow, deny,
}
use zen_claw.Capability.Files.{evaluate_filesystem, evaluate_exec}
use zen_claw.Capability.Remote.{evaluate_sessions, evaluate_network, evaluate_message}
use zen_claw.Capability.Records.{evaluate_connector, evaluate_knowledge}

abbrev or_false : Option Bool → Bool
or_false none = false
or_false (some b) = b

-- `snapshot.get(k)` as a test
unfoldable pub flag_of : Dict Bool → String → Bool
flag_of snapshot k = or_false (get snapshot k)

abbrev default_snapshot : Option Policy → Dict Bool
default_snapshot none = ("production_hardening", false) ∷ ("legacy_compat", false) ∷ []
default_snapshot (some p) =
    ("production_hardening", p.production_hardening) ∷ ("legacy_compat", p.legacy_compat) ∷ []

-- `__init__`: an empty snapshot is filled in from the policy
unfoldable pub snapshot_for : Option Policy → Dict Bool → Dict Bool
snapshot_for policy snapshot = elim snapshot [ [] ↦ default_snapshot policy | other ↦ other ]

unfoldable pub is_connector : String → Bool
is_connector capability = starts_with capability "connector."

unfoldable pub is_network : String → Bool
is_network capability =
    capability == "network.fetch"
    || capability == "network.search"
    || capability == "network.browser"

-- the part of `evaluate` from the capability on, with a policy at hand
unfoldable pub evaluate_known :
    Library → Evaluator → String → Scope → Option CapabilityPolicyDecision
evaluate_known lib e capability scope =
    if capability == "filesystem.access"
    then evaluate_filesystem lib e scope
    else if capability == "exec.run"
    then some (evaluate_exec lib e scope)
    else if starts_with capability "sessions."
    then some (evaluate_sessions lib e capability scope)
    else if is_network capability
    then evaluate_network lib e capability scope
    else if is_connector capability
    then some (evaluate_connector e capability scope)
    else if capability == "message.send"
    then some (evaluate_message e scope)
    else if starts_with capability "knowledge."
    then some (evaluate_knowledge e capability scope)
    else if e.policy.production_hardening
    then some (
        deny e capability scope "unknown capability is not permitted under production hardening"
          "resource_scope_capability_unknown" [])
    else some (allow e capability scope [])

unfoldable pub evaluate_policy :
    Library → Evaluator → CapabilityRequest → Option CapabilityPolicyDecision
evaluate_policy lib e r =
    if e.policy.legacy_compat
    then some (allow e r.capability r.resource_scope (("legacy_compat", flag true) ∷ []))
    else evaluate_known lib e (norm r.capability) r.resource_scope

-- `_is_hardened`
unfoldable pub is_hardened : Option Policy → Dict Bool → Bool
is_hardened none snapshot = flag_of snapshot "production_hardening"
is_hardened (some p) snapshot = p.production_hardening

unfoldable pub evaluate_request :
    Library
    → Option Policy
    → Dict String
    → Dict Bool
    → CapabilityRequest
    → Option CapabilityPolicyDecision
evaluate_request lib none identity snapshot r =
    if is_hardened none snapshot
    then some (
        deny_for snapshot r.capability r.resource_scope
          "policy object missing under production hardening" "resource_scope_policy_missing" [])
    else some (allow_for snapshot r.capability r.resource_scope [])
evaluate_request lib (some p) identity snapshot r =
    evaluate_policy lib (record { policy = p; identity = identity; policy_snapshot = snapshot }) r

unfoldable pub evaluate_snapshot :
    Library
    → Option Policy
    → Dict String
    → Dict Bool
    → Option CapabilityRequest
    → Option CapabilityPolicyDecision
evaluate_snapshot lib policy identity snapshot none =
    if is_hardened policy snapshot
    then some (
        deny_for snapshot "" (entries_only [])
          "capability request is required under production hardening"
          "resource_scope_request_missing" [])
    else some (record {
      allowed = true;
      capability = "";
      reason = "";
      error_code = "";
      matched_scope = [];
      policy_snapshot = [];
      resource_scope = entries_only [];
    })
evaluate_snapshot lib policy identity snapshot (some r) =
    evaluate_request lib policy identity snapshot r

-- `CapabilityPolicyEvaluator(policy, identity).evaluate(request)`
unfoldable pub evaluate :
    Library
    → Option Policy
    → Dict String
    → Dict Bool
    → Option CapabilityRequest
    → Option CapabilityPolicyDecision
evaluate lib policy identity policy_snapshot request =
    evaluate_snapshot lib policy identity (snapshot_for policy policy_snapshot) request
