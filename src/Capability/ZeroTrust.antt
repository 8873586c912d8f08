-- ===== src/Capability/ZeroTrust.antt =====
-- A hardened policy with no allow list (zen_claw/agent/tools/capability_policy.py).
use zen_claw.Base.{String, ◌≡◌, refl, true, false, Option, none, some, arith}
use zen_claw.Base.Text.{norm, strip}
use zen_claw.Capability.Request.{Scope, CapabilityRequest, text}
use zen_claw.Capability.Policy.{
  Policy, Components, Library, Evaluator, is_empty, with_entry, deny_for, deny,
}
use zen_claw.Capability.Files.{
  workspace_of, filesystem_resolved, filesystem_paths, evaluate_filesystem, Checked, refused,
  passed, exec_command, evaluate_exec,
}
use zen_claw.Capability.Remote.{
  spawn_decision, evaluate_sessions, allowed_domains_of, network_host, network_parsed,
  evaluate_network, evaluate_message,
}
use zen_claw.Capability.Records.{
  connector_lists, connector_checks, missing_dims, evaluate_connector, knowledge_checks,
  evaluate_knowledge,
}
use zen_claw.Capability.Evaluate.{evaluate_known, evaluate_policy}
use zen_claw.Capability.HardenedFiles.{allows}
use zen_claw.Capability.Commands.{Refuses, checks_Refuses}

-- the allow lists without which hardening grants nothing
pub record IsUnconfigured (p : Policy) : Type 0 where
  pub hardened : p.production_hardening ≡ true
  pub strict : p.legacy_compat ≡ false
  pub no_subpaths : is_empty p.filesystem_allowed_subpaths ≡ true
  pub no_commands : is_empty p.exec_allowed_command_prefixes ≡ true
  pub no_ops : is_empty p.sessions_allowed_session_ops ≡ true
  pub no_fetch : is_empty p.fetch_allowed_domains ≡ true
  pub no_search : is_empty p.search_allowed_domains ≡ true
  pub no_browser : is_empty p.browser_allowed_domains ≡ true
  pub no_names : is_empty p.connector_allowed_names ≡ true
  pub no_channels : is_empty p.message_allowed_channels ≡ true
  pub no_tenants : is_empty p.knowledge_allowed_tenants ≡ true
  pub no_notebooks : is_empty p.knowledge_allowed_notebooks ≡ true

module _ (lib : Library) (e : Evaluator) (u : IsUnconfigured e.policy) where
  open u use {
    hardened, strict, no_subpaths, no_commands, no_ops, no_fetch, no_search, no_browser, no_names,
    no_channels, no_tenants, no_notebooks,
  }

  paths_denied :
      (scope : Scope) (path workspace : Option Components)
      → allows (filesystem_paths lib e scope path workspace) ≡ false
  unfolding filesystem_paths filesystem_resolved deny deny_for
  paths_denied scope none workspace = refl
  paths_denied scope (some path) none = refl
  paths_denied scope (some path) (some workspace) = ground (arith, no_subpaths, hardened)

  filesystem_denied : (scope : Scope) → allows (evaluate_filesystem lib e scope) ≡ false
  unfolding evaluate_filesystem deny deny_for
  filesystem_denied scope = ground (
    arith,
    hardened,
    paths_denied scope (lib.expand (strip (text scope.entries "filesystem_path")))
        (lib.expand (workspace_of e scope)),
  )

  command_denied :
      (scope : Scope) (c : Checked) → Refuses c → (exec_command e scope c).allowed ≡ false
  unfolding exec_command deny deny_for
  command_denied scope (refused d) r = r
  command_denied scope (passed scope') r = ground (arith, no_commands, hardened)

  exec_denied : (scope : Scope) → (evaluate_exec lib e scope).allowed ≡ false
  unfolding evaluate_exec
  exec_denied scope = command_denied scope _ (checks_Refuses lib e scope)

  sessions_denied :
      (capability : String) (scope : Scope)
      → (evaluate_sessions lib e capability scope).allowed ≡ false
  unfolding evaluate_sessions spawn_decision deny deny_for
  sessions_denied capability scope = ground (
    arith,
    no_ops,
    hardened,
    exec_denied (with_entry scope "workspace_path" (workspace_of e scope)),
  )

  no_domains : (capability : String) → is_empty (allowed_domains_of e capability) ≡ true
  unfolding allowed_domains_of
  no_domains capability = ground (arith, no_fetch, no_search, no_browser)

  host_denied :
      (capability : String) (scope : Scope) (host : String)
      → (network_host e capability scope host).allowed ≡ false
  unfolding network_host deny deny_for
  host_denied capability scope host = ground (arith, no_domains capability, hardened)

  parsed_denied :
      (capability : String) (scope : Scope) (host : Option String)
      → allows (network_parsed e capability scope host) ≡ false
  unfolding network_parsed
  parsed_denied capability scope none = refl
  parsed_denied capability scope (some host) = host_denied capability scope (norm host)

  network_denied :
      (capability : String) (scope : Scope)
      → allows (evaluate_network lib e capability scope) ≡ false
  unfolding evaluate_network
  network_denied capability scope = ground (
    arith,
    parsed_denied capability scope (lib.hostname (strip (text scope.entries "url"))),
    host_denied capability scope (norm (text scope.entries "domain")),
  )

  missing_some : is_empty (missing_dims e) ≡ false
  unfolding missing_dims is_empty
  missing_some = rw no_names

  connector_denied :
      (capability : String) (scope : Scope)
      → (evaluate_connector e capability scope).allowed ≡ false
  unfolding evaluate_connector connector_checks connector_lists deny deny_for
  connector_denied capability scope = ground (arith, missing_some, hardened)

  message_denied : (scope : Scope) → (evaluate_message e scope).allowed ≡ false
  unfolding evaluate_message deny deny_for
  message_denied scope = ground (arith, no_channels, hardened)

  knowledge_denied :
      (capability : String) (scope : Scope)
      → (evaluate_knowledge e capability scope).allowed ≡ false
  unfolding evaluate_knowledge knowledge_checks deny deny_for
  knowledge_denied capability scope = ground (arith, no_tenants, no_notebooks, hardened)

  known_denied :
      (capability : String) (scope : Scope) → allows (evaluate_known lib e capability scope) ≡ false
  unfolding evaluate_known deny deny_for
  known_denied capability scope = ground (
    arith,
    hardened,
    filesystem_denied scope,
    exec_denied scope,
    sessions_denied capability scope,
    network_denied capability scope,
    connector_denied capability scope,
    message_denied scope,
    knowledge_denied capability scope,
  )

  -- Under a hardened policy outside legacy mode whose allow lists for subpaths, commands, session
  -- operations, domains, connector names, channels, tenants and notebooks are empty, no request is
  -- allowed, known or unknown.
  pub unconfigured_denies : (r : CapabilityRequest) → allows (evaluate_policy lib e r) ≡ false
  unfolding evaluate_policy
  unconfigured_denies r = ground (arith, strict, known_denied (norm r.capability) r.resource_scope)
