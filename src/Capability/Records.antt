-- ===== src/Capability/Records.antt =====
-- `_evaluate_connector` and `_evaluate_knowledge` of zen_claw/agent/tools/capability_policy.py.
use zen_claw.Base.{String, Bool, not, ◌&&◌, ◌||◌, List, [], ◌∷◌, ◌++◌, ◌==◌, any, if◌then◌else◌}
use zen_claw.Base.Text.{strip, norm, starts_with}
use zen_claw.Base.Strings.{or_text, join}
use zen_claw.Base.Sets.{contains}
use zen_claw.Capability.Request.{Scope, text}
use zen_claw.Capability.Policy.{
  one, many, CapabilityPolicyDecision, Evaluator, is_empty, with_entry, allow, deny,
}
use zen_claw.Capability.Remote.{differ}
use Prim.Native.String.{◌++◌ as str_append}

infix 65 ◌+++◌
abbrev ◌+++◌ : String → String → String
a +++ b = str_append a b

-- What `_evaluate_connector` reads off the scope and the identity.
pub record Connector : Type 0 where
  pub connector_name : String
  pub action : String
  pub target_resource : String
  pub tenant_id : String
  pub workspace_id : String
  pub current_tenant : String
  pub current_workspace : String

-- `allowed and not test`: a rule list that is configured and does not hold
unfoldable pub fails : List String → Bool → Bool
fails rules holds = not (is_empty rules) && not holds

unfoldable pub target_test : String → String → Bool
target_test resource target = resource == target || starts_with resource (target +++ ".")

module _ (e : Evaluator) where
  unfoldable pub connector_of : String → Scope → Connector
  connector_of capability scope = record {
    connector_name = norm (text scope.entries "connector_name");
    action = norm (or_text (text scope.entries "action") capability);
    target_resource = norm (text scope.entries "target_resource");
    tenant_id = norm (or_text (text scope.entries "tenant_id") (text e.identity "tenant_id"));
    workspace_id =
        strip (or_text (text scope.entries "workspace_id") (text e.identity "workspace_id"));
    current_tenant =
        norm (or_text (text scope.entries "current_tenant_id") (text e.identity "tenant_id"));
    current_workspace =
        strip
          (or_text (text scope.entries "current_workspace_id") (text e.identity "workspace_id"));
  }

  unfoldable pub connector_scope : Scope → Connector → Scope
  connector_scope scope c =
      with_entry
        (with_entry
          (with_entry
            (with_entry (with_entry scope "connector_name" c.connector_name) "action" c.action)
            "target_resource" c.target_resource)
          "tenant_id" c.tenant_id)
        "workspace_id" c.workspace_id

  unfoldable pub missing_dims : List String
  missing_dims =
      (if is_empty e.policy.connector_allowed_names then "connector_allowed_names" ∷ [] else [])
      ++ (if is_empty e.policy.connector_allowed_actions
          then "connector_allowed_actions" ∷ []
          else [])
      ++ (if is_empty e.policy.connector_allowed_target_resources
          then "connector_allowed_target_resources" ∷ []
          else [])

  -- the five allow lists
  unfoldable pub connector_rules : String → Scope → Connector → CapabilityPolicyDecision
  connector_rules capability scope c =
      let names = e.policy.connector_allowed_names in
      let actions = e.policy.connector_allowed_actions in
      let targets = e.policy.connector_allowed_target_resources in
      let tenants = e.policy.connector_allowed_tenants in
      let workspaces = e.policy.connector_allowed_workspaces in
      if fails names (contains c.connector_name names)
      then deny e capability scope ("connector '" +++ (c.connector_name +++ "' is not allowlisted"))
          "resource_scope_connector_name" (("allowed_connectors", many names) ∷ [])
      else if fails actions (contains c.action actions)
      then deny e capability scope ("connector action '" +++ (c.action +++ "' is not allowlisted"))
          "resource_scope_connector_action" (("allowed_actions", many actions) ∷ [])
      else if fails targets (any (target_test c.target_resource) targets)
      then deny e capability scope
          ("connector target_resource '" +++ (c.target_resource +++ "' is not allowlisted"))
          "resource_scope_connector_target" (("allowed_target_resources", many targets) ∷ [])
      else if fails tenants (contains c.tenant_id tenants)
      then deny e capability scope
          ("connector tenant '" +++ (c.tenant_id +++ "' is not allowlisted"))
          "resource_scope_connector_tenant" (("allowed_tenants", many tenants) ∷ [])
      else if fails workspaces (contains c.workspace_id workspaces)
      then deny e capability scope
          ("connector workspace '" +++ (c.workspace_id +++ "' is not allowlisted"))
          "resource_scope_connector_workspace" (("allowed_workspaces", many workspaces) ∷ [])
      else allow e capability scope (
          ("allowed_connectors", many names)
          ∷ ("allowed_actions", many actions)
          ∷ ("allowed_target_resources", many targets)
          ∷ [])

  -- `any([allowed_names, …])`
  unfoldable pub is_configured : Bool
  is_configured =
      not (is_empty e.policy.connector_allowed_names)
      || not (is_empty e.policy.connector_allowed_actions)
      || not (is_empty e.policy.connector_allowed_target_resources)
      || not (is_empty e.policy.connector_allowed_tenants)
      || not (is_empty e.policy.connector_allowed_workspaces)

  unfoldable pub connector_lists : String → Scope → Connector → CapabilityPolicyDecision
  connector_lists capability scope c =
      if not is_configured
      then if e.policy.production_hardening
        then deny e capability scope
            "connector write tools are disabled until connector policy is explicitly configured"
            "resource_scope_connector_unconfigured" []
        else allow e capability scope []
      else if e.policy.production_hardening && not (is_empty missing_dims)
      then deny e capability scope
          ("connector policy is incomplete under production hardening; missing: "
            +++ join ", " missing_dims)
          "resource_scope_connector_incomplete" (("missing_dimensions", many missing_dims) ∷ [])
      else connector_rules capability scope c

  unfoldable pub connector_checks : String → Scope → Connector → CapabilityPolicyDecision
  connector_checks capability scope c =
      if c.connector_name == "" || c.action == "" || c.target_resource == ""
      then deny e capability scope
          "connector write requires connector_name, action, and target_resource"
          "resource_scope_connector_metadata_missing" []
      else if differ c.tenant_id c.current_tenant
      then deny e capability scope "connector write cannot target a different tenant"
          "resource_scope_connector_cross_tenant" (("current_tenant", one c.current_tenant) ∷ [])
      else if differ c.workspace_id c.current_workspace
      then deny e capability scope "connector write cannot target a different workspace"
          "resource_scope_connector_cross_workspace"
          (("current_workspace", one c.current_workspace) ∷ [])
      else connector_lists capability scope c

  -- `_evaluate_connector`
  unfoldable pub evaluate_connector : String → Scope → CapabilityPolicyDecision
  evaluate_connector capability scope =
      let c = connector_of capability scope in
      connector_checks capability (connector_scope scope c) c

  unfoldable pub knowledge_checks : String → Scope → String → String → CapabilityPolicyDecision
  knowledge_checks capability scope tenant notebook =
      let tenants = e.policy.knowledge_allowed_tenants in
      let notebooks = e.policy.knowledge_allowed_notebooks in
      if is_empty tenants && is_empty notebooks && e.policy.production_hardening
      then deny e capability scope
          "knowledge access is disabled until tenants or notebooks are explicitly allowlisted"
          "resource_scope_knowledge_unconfigured" []
      else if fails tenants (contains tenant tenants)
      then deny e capability scope ("knowledge tenant '" +++ (tenant +++ "' is not allowlisted"))
          "resource_scope_knowledge_tenant" (("allowed_tenants", many tenants) ∷ [])
      else if fails notebooks (contains notebook notebooks)
      then deny e capability scope
          ("knowledge notebook '" +++ (notebook +++ "' is not allowlisted"))
          "resource_scope_knowledge_notebook" (("allowed_notebooks", many notebooks) ∷ [])
      else allow e capability scope
          (("allowed_tenants", many tenants) ∷ ("allowed_notebooks", many notebooks) ∷ [])

  -- `_evaluate_knowledge`
  unfoldable pub evaluate_knowledge : String → Scope → CapabilityPolicyDecision
  evaluate_knowledge capability scope =
      let tenant = norm (
        or_text (text scope.entries "tenant_id")
          (or_text (text e.identity "tenant_id") "default")) in
      let notebook = norm (or_text (text scope.entries "notebook_id") "default") in
      knowledge_checks capability
        (with_entry (with_entry scope "tenant_id" tenant) "notebook_id" notebook) tenant notebook
