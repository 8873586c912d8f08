-- ===== src/Capability/Hardening.antt =====
-- What production hardening adds to the decisions of zen_claw/agent/tools/capability_policy.py.
use zen_claw.Base.{String, ◌≡◌, true, Option, none, some, arith}
use zen_claw.Base.Text.{norm, strip}
use zen_claw.Capability.Request.{Scope, CapabilityRequest, text}
use zen_claw.Capability.Policy.{
  CapabilityPolicyDecision, Library, Evaluator, with_entry, allow_for, deny_for, allow, deny,
}
use zen_claw.Capability.Files.{workspace_of, evaluate_exec}
use zen_claw.Capability.Remote.{
  spawn_decision, sessions_owner, session_op_of, evaluate_sessions, allowed_domains_of,
  blocked_domains_of, network_host, network_parsed, evaluate_network, evaluate_message,
}
use zen_claw.Capability.Records.{
  Connector, connector_of, connector_scope, connector_rules, is_configured, connector_lists,
  connector_checks, evaluate_connector, knowledge_checks, evaluate_knowledge,
}
use zen_claw.Capability.Evaluate.{evaluate_known, evaluate_policy}
use zen_claw.Capability.HardenedFiles.{allows, relaxed, filesystem_relaxed, exec_relaxed}

module _ (e : Evaluator) where
  owner_relaxed :
      (capability : String) (scope scope' : Scope)
      → (sessions_owner e capability scope scope').allowed ≡ true
      → (sessions_owner (relaxed e) capability scope scope').allowed ≡ true
  unfolding sessions_owner allow deny allow_for deny_for
  owner_relaxed capability scope scope' h = ground arith

  network_host-relaxed :
      (capability : String) (scope : Scope) (host : String)
      → (network_host e capability scope host).allowed ≡ true
      → (network_host (relaxed e) capability scope host).allowed ≡ true
  unfolding network_host allowed_domains_of blocked_domains_of allow deny allow_for deny_for
  network_host-relaxed capability scope host h = ground arith

  network_parsed-relaxed :
      (capability : String) (scope : Scope) (host : Option String)
      → allows (network_parsed e capability scope host) ≡ true
      → allows (network_parsed (relaxed e) capability scope host) ≡ true
  unfolding network_parsed
  network_parsed-relaxed capability scope none h = cc
  network_parsed-relaxed capability scope (some host) h =
      network_host-relaxed capability scope (norm host) h

  message_relaxed :
      (scope : Scope)
      → (evaluate_message e scope).allowed ≡ true
      → (evaluate_message (relaxed e) scope).allowed ≡ true
  unfolding evaluate_message allow deny allow_for deny_for
  message_relaxed scope h = ground arith

  rules_relaxed :
      (capability : String) (scope : Scope) (c : Connector)
      → (connector_rules e capability scope c).allowed ≡ true
      → (connector_rules (relaxed e) capability scope c).allowed ≡ true
  unfolding connector_rules allow deny allow_for deny_for
  rules_relaxed capability scope c h = ground arith

  connector_relaxed :
      (capability : String) (scope : Scope)
      → (evaluate_connector e capability scope).allowed ≡ true
      → (evaluate_connector (relaxed e) capability scope).allowed ≡ true
  unfolding evaluate_connector connector_checks connector_lists is_configured connector_of
      connector_scope allow deny allow_for deny_for
  connector_relaxed capability scope h = ground (
    arith,
    rules_relaxed capability (connector_scope e scope (connector_of e capability scope))
        (connector_of e capability scope),
  )

  knowledge_relaxed :
      (capability : String) (scope : Scope)
      → (evaluate_knowledge e capability scope).allowed ≡ true
      → (evaluate_knowledge (relaxed e) capability scope).allowed ≡ true
  unfolding evaluate_knowledge knowledge_checks allow deny allow_for deny_for
  knowledge_relaxed capability scope h = ground arith

module _ (lib : Library) (e : Evaluator) where
  network_relaxed :
      (capability : String) (scope : Scope)
      → allows (evaluate_network lib e capability scope) ≡ true
      → allows (evaluate_network lib (relaxed e) capability scope) ≡ true
  unfolding evaluate_network
  network_relaxed capability scope h = ground (
    arith,
    network_parsed-relaxed e capability scope (lib.hostname (strip (text scope.entries "url"))),
    network_host-relaxed e capability scope (norm (text scope.entries "domain")),
  )

  spawn_allowed :
      (e' : Evaluator) (capability : String) (scope : Scope) (d : CapabilityPolicyDecision)
      → (spawn_decision e' capability scope d).allowed ≡ d.allowed
  unfolding spawn_decision allow allow_for
  spawn_allowed e' capability scope d = ground arith

  sessions_relaxed :
      (capability : String) (scope : Scope)
      → (evaluate_sessions lib e capability scope).allowed ≡ true
      → (evaluate_sessions lib (relaxed e) capability scope).allowed ≡ true
  unfolding evaluate_sessions deny deny_for workspace_of
  sessions_relaxed capability scope h =
      let spawn_scope = with_entry scope "workspace_path" (workspace_of e scope) in
      let op_scope = with_entry scope "session_op" (session_op_of capability scope) in
      ground (
        arith,
        owner_relaxed e capability scope op_scope,
        exec_relaxed lib e spawn_scope,
        spawn_allowed e capability op_scope (evaluate_exec lib e spawn_scope),
        spawn_allowed (relaxed e) capability op_scope (evaluate_exec lib (relaxed e) spawn_scope),
      )

  known_relaxed :
      (capability : String) (scope : Scope)
      → allows (evaluate_known lib e capability scope) ≡ true
      → allows (evaluate_known lib (relaxed e) capability scope) ≡ true
  unfolding evaluate_known allow deny allow_for deny_for
  known_relaxed capability scope h = ground (
    arith,
    filesystem_relaxed lib e scope,
    exec_relaxed lib e scope,
    sessions_relaxed capability scope,
    network_relaxed capability scope,
    connector_relaxed e capability scope,
    message_relaxed e scope,
    knowledge_relaxed e capability scope,
  )

  -- Whatever request an evaluator under production hardening allows, the same evaluator without it
  -- allows too: hardening only takes requests away, for every capability and through the policy's
  -- legacy mode.
  pub hardening_restricts :
      (r : CapabilityRequest)
      → allows (evaluate_policy lib e r) ≡ true
      → allows (evaluate_policy lib (relaxed e) r) ≡ true
  unfolding evaluate_policy allow allow_for
  hardening_restricts r h = ground (arith, known_relaxed (norm r.capability) r.resource_scope)
