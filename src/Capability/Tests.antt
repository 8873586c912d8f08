-- ===== src/Capability/Tests.antt =====
-- Runs of the capability checks, and instances of their theorems.
use zen_claw.Base.{String, ◌≡◌, refl, true, false, not, ◌&&◌, ◌||◌, some, [], ◌∷◌, ◌==◌, any}
use zen_claw.Base.Text.{norm, strip, lower, lower_char, starts_with}
use zen_claw.Base.Strings.{ends_with, or_text, words, join, replace, before, remove_prefix}
use zen_claw.Base.Dict.{Dict, get, put}
use zen_claw.Capability.Request.{
  connector_capability_request, Scope, CapabilityRequest, entries_only, text, social_request_of,
}
use zen_claw.Capability.Policy.{
  Policy, one, Library, Evaluator, is_empty, is_within, with_entry, candidate_of, search_paths,
  CapabilityPolicyDecision, allow, allow_for, deny, deny_for,
}
use zen_claw.Capability.Files.{
  workspace_of, filesystem_search, filesystem_resolved, filesystem_paths, evaluate_filesystem,
}
use zen_claw.Capability.Records.{
  connector_of, connector_scope, connector_checks, missing_dims, evaluate_connector,
}
use zen_claw.Capability.Remote.{
  differ, allowed_domains_of, blocked_domains_of, domain_test, network_parsed, network_host,
  evaluate_network,
}
use zen_claw.Capability.Evaluate.{is_network, is_connector, evaluate_known, evaluate_policy}
use zen_claw.Capability.HardenedFiles.{allows, relaxed}
use zen_claw.Capability.Hardening.{hardening_restricts}
use zen_claw.Capability.ZeroTrust.{IsUnconfigured, unconfigured_denies}
use zen_claw.Capability.Boundary.{Resolves, evaluate_filesystem-Resolves}
use zen_claw.Capability.Isolation.{listed, evaluate_connector-allowed}
use Prim.Native.String.{◌++◌}

-- absolute POSIX paths with neither ".", ".." nor links
abbrev posix : Library
posix = record {
  expand = λ s. some (words (replace s "/" " "));
  resolve = λ s. some (words (replace s "/" " "));
  resolve_under = λ base s. some (words (replace (base ++ "/" ++ s) "/" " "));
  is_absolute = λ s. starts_with s "/";
  show = λ c. "/" ++ join "/" c;
  hostname = λ url. some (before "/" (remove_prefix url "https://"));
}

abbrev strict_policy : Policy
strict_policy = record {
  production_hardening = true;
  legacy_compat = false;
  filesystem_allowed_subpaths = [];
  exec_allowed_working_dirs = [];
  exec_allowed_command_prefixes = [];
  sessions_allowed_session_ops = [];
  fetch_allowed_domains = [];
  fetch_blocked_domains = [];
  search_allowed_domains = [];
  search_blocked_domains = [];
  browser_allowed_domains = [];
  browser_blocked_domains = [];
  connector_allowed_names = [];
  connector_allowed_actions = [];
  connector_allowed_target_resources = [];
  connector_allowed_tenants = [];
  connector_allowed_workspaces = [];
  message_allowed_channels = [];
  knowledge_allowed_tenants = [];
  knowledge_allowed_notebooks = [];
}

unconfigured : IsUnconfigured strict_policy
unfolding is_empty
unconfigured = record {
  hardened = refl;
  strict = refl;
  no_subpaths = refl;
  no_commands = refl;
  no_ops = refl;
  no_fetch = refl;
  no_search = refl;
  no_browser = refl;
  no_names = refl;
  no_channels = refl;
  no_tenants = refl;
  no_notebooks = refl;
}

abbrev policy : Policy
policy = record strict_policy {
  filesystem_allowed_subpaths = "docs" ∷ [];
  fetch_allowed_domains = "example.com" ∷ [];
  connector_allowed_names = "notion" ∷ [];
  connector_allowed_actions = "connector.record.create" ∷ [];
  connector_allowed_target_resources = "pages" ∷ [];
}

abbrev evaluator : Policy → Evaluator
evaluator p = record { policy = p; identity = []; policy_snapshot = [] }

abbrev fetch : CapabilityRequest
fetch = record {
  capability = "network.fetch";
  resource_scope = entries_only (("url", "https://api.example.com/v1") ∷ []);
}

fetch_runs : allows (evaluate_policy posix (evaluator policy) fetch) ≡ true
unfolding evaluate_policy evaluate_known is_network evaluate_network network_parsed network_host
    allowed_domains_of blocked_domains_of domain_test allow allow_for norm strip lower lower_char
    text get starts_with before remove_prefix ends_with is_empty any
fetch_runs = refl

fetch_allowed_runs : allows (evaluate_policy posix (evaluator strict_policy) fetch) ≡ false
unfolding evaluate_policy evaluate_known is_network evaluate_network network_parsed network_host
    allowed_domains_of blocked_domains_of deny deny_for norm strip lower lower_char text get
    starts_with before remove_prefix is_empty
fetch_allowed_runs = refl

hardening_restricts_example :
    allows (evaluate_policy posix (relaxed (evaluator policy)) fetch) ≡ true
hardening_restricts_example = hardening_restricts posix (evaluator policy) fetch fetch_runs

unconfigured_denies_example : allows (evaluate_policy posix (evaluator strict_policy) fetch) ≡ false
unconfigured_denies_example = unconfigured_denies posix (evaluator strict_policy) unconfigured fetch

-- "write_file" on a page of the allowlisted folder
abbrev page : Scope
page =
    entries_only (("filesystem_path", "/srv/work/docs/a.md") ∷ ("workspace_path", "/srv/work") ∷ [])

abbrev page_decision : CapabilityPolicyDecision
page_decision = record {
  allowed = true;
  capability = "filesystem.access";
  reason = "";
  error_code = "";
  matched_scope = ("filesystem_allowed_subpath", one "/srv/work/docs") ∷ [];
  policy_snapshot = [];
  resource_scope = page;
}

page_runs : evaluate_filesystem posix (evaluator policy) page ≡ some page_decision
unfolding evaluate_filesystem filesystem_paths filesystem_resolved filesystem_search workspace_of
    search_paths candidate_of is_within is_empty with_entry put allow allow_for or_text strip text
    get replace words join starts_with
page_runs = refl

evaluate_filesystem-Resolves_example :
    Resolves posix
      (evaluator policy)
      refl
      (posix.expand (strip (text page.entries "filesystem_path")))
      (posix.expand (workspace_of (evaluator policy) page))
evaluate_filesystem-Resolves_example =
    evaluate_filesystem-Resolves posix (evaluator policy) refl page page_decision page_runs refl

-- a record for "notion" in another tenant
abbrev record_scope : Scope
record_scope = entries_only (
    ("connector_name", "notion")
    ∷ ("action", "connector.record.create")
    ∷ ("target_resource", "pages.7")
    ∷ ("tenant_id", "acme")
    ∷ ("current_tenant_id", "other")
    ∷ [])

evaluate_connector-allowed_example :
    let c = connector_of (evaluator policy) "connector.record.create" record_scope in
    (evaluate_connector (evaluator policy) "connector.record.create" record_scope).allowed ≡ (
      not (c.connector_name == "" || c.action == "" || c.target_resource == "")
      && not (differ c.tenant_id c.current_tenant)
      && not (differ c.workspace_id c.current_workspace)
      && listed (evaluator policy) c
      && (not policy.production_hardening || is_empty (missing_dims (evaluator policy))))
evaluate_connector-allowed_example =
    evaluate_connector-allowed (evaluator policy) "connector.record.create" record_scope

record_runs :
    (evaluate_connector (evaluator policy) "connector.record.create" record_scope).error_code
    ≡ "resource_scope_connector_cross_tenant"
unfolding evaluate_connector connector_of connector_scope connector_checks differ with_entry put
    deny deny_for norm strip lower lower_char or_text text get
record_runs = refl

abbrev open_policy : Policy
open_policy = record policy { production_hardening = false }

-- the connector lists allow only "notion"; the action names no connector
abbrev post : Dict String
post = ("action", "Post.Now") ∷ ("connector_name", "x") ∷ ("target_resource", "feed") ∷ []

social_action_runs :
    allows (evaluate_policy posix (evaluator open_policy) (social_request_of post [])) ≡ true
unfolding evaluate_policy evaluate_known social_request_of connector_capability_request allow
    allow_for is_network is_connector starts_with norm strip lower lower_char or_text text get
social_action_runs = refl
