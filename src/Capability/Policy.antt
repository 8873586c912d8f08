-- ===== src/Capability/Policy.antt =====
-- The decision of `CapabilityPolicyEvaluator` (zen_claw/agent/tools/capability_policy.py), and the
-- fields of the security policy that it reads. Paths and URLs belong to Python's library.
use zen_claw.Base.{
  String, Bool, true, false, Option, none, some, List, [], ◌∷◌, ◌==◌, if◌then◌else◌,
}
use zen_claw.Base.Dict.{Dict, put}
use zen_claw.Capability.Request.{Scope}

pub record Policy : Type 0 where
  pub production_hardening : Bool
  pub legacy_compat : Bool
  pub filesystem_allowed_subpaths : List String
  pub exec_allowed_working_dirs : List String
  pub exec_allowed_command_prefixes : List String
  pub sessions_allowed_session_ops : List String
  pub fetch_allowed_domains : List String
  pub fetch_blocked_domains : List String
  pub search_allowed_domains : List String
  pub search_blocked_domains : List String
  pub browser_allowed_domains : List String
  pub browser_blocked_domains : List String
  pub connector_allowed_names : List String
  pub connector_allowed_actions : List String
  pub connector_allowed_target_resources : List String
  pub connector_allowed_tenants : List String
  pub connector_allowed_workspaces : List String
  pub message_allowed_channels : List String
  pub knowledge_allowed_tenants : List String
  pub knowledge_allowed_notebooks : List String

-- What a decision says that it matched.
pub data Matched : Type 0 where
  one : String → Matched
  many : List String → Matched
  flag : Bool → Matched

pub record CapabilityPolicyDecision : Type 0 where
  pub allowed : Bool
  pub capability : String
  pub reason : String
  pub error_code : String
  pub matched_scope : Dict Matched
  pub policy_snapshot : Dict Bool
  pub resource_scope : Scope

-- A resolved path, as the list of its components from the root.
abbrev pub Components : Type 0
Components = List String

-- `pathlib` and `urllib` as the evaluator calls them; `none` is an exception.
pub record Library : Type 0 where
  -- `Path(s).expanduser().resolve()`
  pub expand : String → Option Components
  -- `Path(s).resolve()`
  pub resolve : String → Option Components
  -- `(Path(base) / s).resolve()`
  pub resolve_under : String → String → Option Components
  pub is_absolute : String → Bool
  -- `str(path)`
  pub show : Components → String
  -- `urlparse(url).hostname or ""`
  pub hostname : String → Option String

-- `self`, once `policy` is known to be there
pub record Evaluator : Type 0 where
  pub policy : Policy
  pub identity : Dict String
  pub policy_snapshot : Dict Bool

-- `root in path.parents or path == root`
unfoldable pub is_within : Components → Components → Bool
is_within [] path = true
is_within (r ∷ root) [] = false
is_within (r ∷ root) (p ∷ path) = let rest = is_within root path in if r == p then rest else false

unfoldable pub is_empty : List String → Bool
is_empty [] = true
is_empty (x ∷ xs) = false

-- `{**scope, key: value}`
unfoldable pub with_entry : Scope → String → String → Scope
with_entry scope key value = record scope { entries = put scope.entries key value }

-- `_allow`, by the evaluator's snapshot
unfoldable pub allow_for : Dict Bool → String → Scope → Dict Matched → CapabilityPolicyDecision
allow_for snapshot capability scope matched = record {
  allowed = true;
  capability = capability;
  reason = "";
  error_code = "";
  matched_scope = matched;
  policy_snapshot = snapshot;
  resource_scope = scope;
}

-- `_deny`
unfoldable pub deny_for :
    Dict Bool → String → Scope → String → String → Dict Matched → CapabilityPolicyDecision
deny_for snapshot capability scope reason error_code matched = record {
  allowed = false;
  capability = capability;
  reason = reason;
  error_code = error_code;
  matched_scope = matched;
  policy_snapshot = snapshot;
  resource_scope = scope;
}

unfoldable pub allow : Evaluator → String → Scope → Dict Matched → CapabilityPolicyDecision
allow e = allow_for e.policy_snapshot

unfoldable pub deny :
    Evaluator → String → Scope → String → String → Dict Matched → CapabilityPolicyDecision
deny e = deny_for e.policy_snapshot

-- `candidate` of an allowlisted path: relative ones start at the workspace
unfoldable pub candidate_of : Library → String → String → Option Components
candidate_of lib workspace raw =
    if lib.is_absolute raw then lib.resolve raw else lib.resolve_under workspace raw

-- How the search for an allowlisted path that holds the resource ends.
pub data PathSearch : Type 0 where
  found : Components → PathSearch
  missing raised : PathSearch

abbrev pub found_or : Option Components → Components → PathSearch → PathSearch
found_or none path rest = raised
found_or (some candidate) path rest = if is_within candidate path then found candidate else rest

-- `for raw in allowed: …`, with the candidate of each
unfoldable pub search_paths : (String → Option Components) → List String → Components → PathSearch
search_paths candidate [] path = missing
search_paths candidate (raw ∷ rest) path =
    found_or (candidate raw) path (search_paths candidate rest path)
