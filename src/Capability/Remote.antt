-- ===== src/Capability/Remote.antt =====
-- `_evaluate_sessions`, `_evaluate_network` and `_evaluate_message` of
-- zen_claw/agent/tools/capability_policy.py.
use zen_claw.Base.{
  String, Bool, false, not, ◌&&◌, ◌||◌, Option, none, some, List, [], ◌∷◌, ◌==◌, any, if◌then◌else◌,
}
use zen_claw.Base.Text.{strip, norm}
use zen_claw.Base.Strings.{or_text, remove_prefix, replace, ends_with}
use zen_claw.Base.Sets.{contains}
use zen_claw.Capability.Request.{Scope, text}
use zen_claw.Capability.Policy.{
  one, many, CapabilityPolicyDecision, Library, Evaluator, is_empty, with_entry, allow, deny,
}
use zen_claw.Capability.Files.{workspace_of, evaluate_exec}
use Prim.Native.String.{◌++◌}

abbrev or_scope : Scope → Scope → Scope
or_scope a b = elim a.entries [ [] ↦ b | other ↦ a ]

-- `a and b and a != b`
unfoldable pub differ : String → String → Bool
differ a b = not (a == "") && not (b == "") && not (a == b)

unfoldable pub session_op_of : String → Scope → String
session_op_of capability scope =
    norm (or_text (text scope.entries "session_op") (remove_prefix capability "sessions."))

unfoldable pub domain_test : String → String → Bool
domain_test host domain = host == domain || ends_with host ("." ++ domain)

unfoldable pub tool_label : String → String
tool_label capability =
    if capability == "network.browser" then "browser" else replace capability "network." "web_"

module _ (e : Evaluator) where
  -- a session is spawned under the rules for commands
  unfoldable pub spawn_decision :
      String → Scope → CapabilityPolicyDecision → CapabilityPolicyDecision
  spawn_decision capability scope d =
      if not d.allowed
      then record {
        allowed = false;
        capability = capability;
        reason = d.reason;
        error_code = replace d.error_code "exec." "sessions.";
        matched_scope = d.matched_scope;
        policy_snapshot = elim d.policy_snapshot [ [] ↦ e.policy_snapshot | other ↦ other ];
        resource_scope = or_scope d.resource_scope scope;
      }
      else allow e capability (or_scope d.resource_scope scope) []

  -- the last part of `_evaluate_sessions`: whose session it is
  unfoldable pub sessions_owner : String → Scope → Scope → CapabilityPolicyDecision
  sessions_owner capability scope₀ scope =
      let tenant = norm (or_text (text scope₀.entries "tenant_id") (text e.identity "tenant_id")) in
      let workspace =
        strip (or_text (text scope₀.entries "workspace_id") (text e.identity "workspace_id")) in
      let owner_tenant = norm (text scope₀.session_owner "tenant_id") in
      let owner_workspace = strip (text scope₀.session_owner "workspace_id") in
      if differ owner_tenant tenant
      then deny e capability scope "session belongs to a different tenant"
          "resource_scope_sessions_cross_tenant"
          (("current_tenant", one tenant) ∷ ("session_owner_tenant", one owner_tenant) ∷ [])
      else if differ owner_workspace workspace
      then deny e capability scope "session belongs to a different workspace"
          "resource_scope_sessions_cross_workspace"
          (("current_workspace", one workspace)
            ∷ ("session_owner_workspace", one owner_workspace)
            ∷ [])
      else allow e capability scope
          (("sessions_allowed_session_ops", many e.policy.sessions_allowed_session_ops) ∷ [])

  unfoldable pub allowed_domains_of : String → List String
  allowed_domains_of capability =
      if capability == "network.fetch"
      then e.policy.fetch_allowed_domains
      else if capability == "network.search"
      then e.policy.search_allowed_domains
      else e.policy.browser_allowed_domains

  unfoldable pub blocked_domains_of : String → List String
  blocked_domains_of capability =
      if capability == "network.fetch"
      then e.policy.fetch_blocked_domains
      else if capability == "network.search"
      then e.policy.search_blocked_domains
      else e.policy.browser_blocked_domains

  -- the part of `_evaluate_network` below the choice of the host
  unfoldable pub network_host : String → Scope → String → CapabilityPolicyDecision
  network_host capability scope₀ host =
      let allowed = allowed_domains_of capability in
      let blocked = blocked_domains_of capability in
      let scope = with_entry scope₀ "domain" host in
      if not (is_empty blocked) && not (host == "") && any (domain_test host) blocked
      then deny e capability scope ("domain '" ++ host ++ "' is blocked by policy")
          "resource_scope_domain_blocked" (("blocked_domains", many blocked) ∷ [])
      else if not (is_empty allowed)
      then if host == ""
        then deny e capability scope "network action requires an explicit allowlisted domain"
            "resource_scope_domain_missing" (("allowed_domains", many allowed) ∷ [])
        else if not (any (domain_test host) allowed)
        then deny e capability scope ("domain '" ++ host ++ "' is not allowlisted")
            "resource_scope_domain_denied" (("allowed_domains", many allowed) ∷ [])
        else allow e capability scope (("allowed_domains", many allowed) ∷ [])
      else if e.policy.production_hardening
      then deny e capability scope
          (tool_label capability ++ " is disabled until domains are explicitly allowlisted")
          "resource_scope_domain_unconfigured" []
      else allow e capability scope []

  unfoldable pub network_parsed : String → Scope → Option String → Option CapabilityPolicyDecision
  network_parsed capability scope none = none
  network_parsed capability scope (some hostname) =
      some (network_host capability scope (norm hostname))

  -- `_evaluate_message`
  unfoldable pub evaluate_message : Scope → CapabilityPolicyDecision
  evaluate_message scope₀ =
      let channel = norm (or_text (text scope₀.entries "channel") (text e.identity "channel")) in
      let scope = with_entry scope₀ "channel" channel in
      let channels = e.policy.message_allowed_channels in
      if not (is_empty channels)
      then if not (contains channel channels)
        then deny e "message.send" scope
            ("message target channel '" ++ or_text channel "-" ++ "' is not allowlisted")
            "resource_scope_message_channel" (("allowed_channels", many channels) ∷ [])
        else allow e "message.send" scope (("allowed_channels", many channels) ∷ [])
      else if e.policy.production_hardening
      then deny e "message.send" scope
          "message tool is disabled until target channels are explicitly allowlisted"
          "resource_scope_message_unconfigured" []
      else allow e "message.send" scope []

module _ (lib : Library) (e : Evaluator) where
  -- `_evaluate_sessions`
  unfoldable pub evaluate_sessions : String → Scope → CapabilityPolicyDecision
  evaluate_sessions capability scope₀ =
      let op = session_op_of capability scope₀ in
      let scope = with_entry scope₀ "session_op" op in
      let ops = e.policy.sessions_allowed_session_ops in
      if op == "spawn"
      then spawn_decision e capability scope
          (evaluate_exec lib e (with_entry scope₀ "workspace_path" (workspace_of e scope₀)))
      else if not (is_empty ops)
      then if not (contains op ops)
        then deny e capability scope ("session op '" ++ or_text op "-" ++ "' is not allowlisted")
            "resource_scope_sessions_op" (("sessions_allowed_session_ops", many ops) ∷ [])
        else sessions_owner e capability scope₀ scope
      else if e.policy.production_hardening
      then deny e capability scope
          "session control is disabled until session ops are explicitly allowlisted"
          "resource_scope_sessions_op_unconfigured" []
      else sessions_owner e capability scope₀ scope

  -- `_evaluate_network`
  unfoldable pub evaluate_network : String → Scope → Option CapabilityPolicyDecision
  evaluate_network capability scope =
      let host = norm (text scope.entries "domain") in
      let url = strip (text scope.entries "url") in
      if host == "" && not (url == "")
      then network_parsed e capability scope (lib.hostname url)
      else some (network_host e capability scope host)
