-- ===== src/Capability/Isolation.antt =====
-- Whose connectors and sessions a request may reach (zen_claw/agent/tools/capability_policy.py).
use zen_claw.Base.{String, ◌≡◌, Bool, true, false, not, ◌&&◌, ◌||◌, ◌==◌, arith, any}
use zen_claw.Base.Text.{norm, strip}
use zen_claw.Base.Strings.{or_text}
use zen_claw.Base.Sets.{contains}
use zen_claw.Capability.Request.{Scope, text}
use zen_claw.Capability.Policy.{Library, Evaluator, is_empty, allow_for, deny_for, allow, deny}
use zen_claw.Capability.Remote.{differ, sessions_owner, session_op_of, evaluate_sessions}
use zen_claw.Capability.Records.{
  Connector, connector_of, connector_scope, connector_rules, is_configured, missing_dims, fails,
  target_test, connector_lists, connector_checks, evaluate_connector,
}

module _ (e : Evaluator) where
  -- every list that is configured holds
  abbrev pub listed : Connector → Bool
  listed c =
      not (
        fails e.policy.connector_allowed_names
          (contains c.connector_name e.policy.connector_allowed_names))
      && not (
          fails e.policy.connector_allowed_actions
            (contains c.action e.policy.connector_allowed_actions))
      && not (
          fails e.policy.connector_allowed_target_resources
            (any (target_test c.target_resource) e.policy.connector_allowed_target_resources))
      && not (
          fails e.policy.connector_allowed_tenants
            (contains c.tenant_id e.policy.connector_allowed_tenants))
      && not (
          fails e.policy.connector_allowed_workspaces
            (contains c.workspace_id e.policy.connector_allowed_workspaces))

  rules-listed :
      (capability : String) (scope : Scope) (c : Connector)
      → (connector_rules e capability scope c).allowed ≡ listed c
  unfolding connector_rules allow deny allow_for deny_for
  rules-listed capability scope c = ground arith

  -- with no list at all, every list holds
  listed_unconfigured : (c : Connector) → is_configured e ≡ false → listed c ≡ true
  unfolding is_configured fails
  listed_unconfigured c h = ground arith

  missing_unconfigured : is_configured e ≡ false → is_empty (missing_dims e) ≡ false
  unfolding is_configured missing_dims is_empty
  missing_unconfigured h = ground arith

  -- A connector request is allowed exactly when it names a connector, an action and a target, its
  -- tenant and workspace are those of the caller where both are known, every configured allow list
  -- holds, and under production hardening the lists of names, actions and targets are configured.
  pub evaluate_connector-allowed :
      (capability : String) (scope : Scope)
      → let c = connector_of e capability scope in
        (evaluate_connector e capability scope).allowed ≡ (
          not (c.connector_name == "" || c.action == "" || c.target_resource == "")
          && not (differ c.tenant_id c.current_tenant)
          && not (differ c.workspace_id c.current_workspace)
          && listed c
          && (not e.policy.production_hardening || is_empty (missing_dims e)))
  unfolding evaluate_connector connector_checks connector_lists allow deny allow_for deny_for
  evaluate_connector-allowed capability scope =
      let c = connector_of e capability scope in
      ground (
        arith,
        rules-listed capability (connector_scope e scope c) c,
        listed_unconfigured c,
        missing_unconfigured,
      )

  -- A session operation other than "spawn" is allowed only on a session whose tenant and workspace
  -- are those of the caller, wherever both sides are known.
  pub evaluate_sessions_owner :
      (lib : Library) (capability : String) (scope : Scope)
      → (session_op_of capability scope == "spawn") ≡ false
      → (evaluate_sessions lib e capability scope).allowed ≡ true
      → (differ
            (norm (text scope.session_owner "tenant_id"))
            (norm (or_text (text scope.entries "tenant_id") (text e.identity "tenant_id")))
          ≡ false)
        × (differ
              (strip (text scope.session_owner "workspace_id"))
              (strip (or_text (text scope.entries "workspace_id") (text e.identity "workspace_id")))
            ≡ false)
  unfolding evaluate_sessions sessions_owner deny deny_for
  evaluate_sessions_owner lib capability scope p h = ground arith
