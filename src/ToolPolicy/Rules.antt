-- ===== src/ToolPolicy/Rules.antt =====
-- `ToolPolicyEngine` of zen_claw/agent/tools/policy.py. `self` is the record `Engine`.
use zen_claw.Base.{
  String, Bool, true, false, ◌||◌, Option, none, some, List, [], ◌∷◌, map, ◌==◌, is_some,
  if◌then◌else◌,
}
use zen_claw.Base.Text.{norm}
use zen_claw.Base.Dict.{Dict, put, remove}
use zen_claw.Base.Sets.{contains, add_nonempty}
use Prim.Native.String.{◌++◌}

pub record ToolPolicyScope : Type 0 where
  pub allow : Option (List String)
  pub deny : Option (List String)

pub record PolicyReason : Type 0 where
  pub code : String
  pub tool : String
  pub trigger : String
  pub message : String

pub record ToolPolicyDecision : Type 0 where
  pub allowed : Bool
  pub reason : PolicyReason
  pub code : String
  pub scope : Option String

pub record Engine : Type 0 where
  pub default_deny_tools : List String
  pub scopes : Dict ToolPolicyScope

-- `_normalize_names`
unfoldable pub normalize_names : List String → List String
normalize_names names = add_nonempty [] (map norm names)

-- `default_deny_tools or {"exec", "spawn"}`: no set and the empty set both give the default
abbrev or_default : Option (List String) → List String
or_default none = "exec" ∷ "spawn" ∷ []
or_default (some []) = "exec" ∷ "spawn" ∷ []
or_default (some (x ∷ xs)) = x ∷ xs

-- `__init__`
unfoldable pub init : Option (List String) → Engine
init default_deny = record {
  default_deny_tools = normalize_names (or_default default_deny);
  scopes = [];
}

abbrev normalize_option : Option (List String) → Option (List String)
normalize_option none = none
normalize_option (some names) = some (normalize_names names)

unfoldable pub set_scope : Engine → String → Option (List String) → Option (List String) → Engine
set_scope e scope allow deny = record e {
  scopes =
      put e.scopes scope (record { allow = normalize_option allow; deny = normalize_option deny });
}

unfoldable pub clear_scope : Engine → String → Engine
clear_scope e scope = record e { scopes = remove e.scopes scope }

-- `"*" in names or name in names`
unfoldable pub matches : Option (List String) → String → Bool
matches none name = false
matches (some names) name = contains "*" names || contains name names

-- `_find_deny_scope`
unfoldable pub find_deny_scope : Dict ToolPolicyScope → String → Option String
find_deny_scope [] name = none
find_deny_scope ((scope_name, scope) ∷ rest) name =
    if matches scope.deny name then some scope_name else find_deny_scope rest name

-- `if deny_scope:` is false of None and of the empty name
unfoldable pub nonempty_name : Option String → Option String
nonempty_name none = none
nonempty_name (some s) = if s == "" then none else some s

-- How the loop over the allow lists ends.
pub data AllowSearch : Type 0 where
  permitted not_listed undefined : AllowSearch

unfoldable pub search_allow : Dict ToolPolicyScope → String → Bool → AllowSearch
search_allow [] name allow_defined = if allow_defined then not_listed else undefined
search_allow ((scope_name, scope) ∷ rest) name allow_defined =
    if matches scope.allow name
    then permitted
    else search_allow rest name (allow_defined || is_some scope.allow)

abbrev decision : Bool → String → String → String → String → Option String → ToolPolicyDecision
decision allowed code tool trigger message scope = record {
  allowed = allowed;
  reason = record { code = code; tool = tool; trigger = trigger; message = message };
  code = code;
  scope = scope;
}

-- the part of `evaluate` below the deny test
unfoldable pub evaluate_allow : Engine → String → AllowSearch → ToolPolicyDecision
evaluate_allow e name permitted =
    decision true "tool_policy_allowed" name "allow_list" "Allowed by explicit allow policy" none
evaluate_allow e name not_listed =
    decision false "tool_policy_not_allowlisted" name "allow_list"
      ("Tool '" ++ name ++ "' not in allow policy") none
evaluate_allow e name undefined =
    if contains name e.default_deny_tools
    then decision false "tool_policy_default_deny" name "default_deny"
        ("Tool '" ++ name ++ "' blocked by default deny policy") none
    else decision true "tool_policy_allowed" name "default" "Allowed by default policy" none

unfoldable pub evaluate_deny : Engine → String → Option String → ToolPolicyDecision
evaluate_deny e name (some deny_scope) =
    decision false "tool_policy_denied" name deny_scope
      ("Tool '" ++ name ++ "' denied by policy scope '" ++ deny_scope ++ "'") (some deny_scope)
evaluate_deny e name none = evaluate_allow e name (search_allow e.scopes name false)

unfoldable pub evaluate : Engine → String → ToolPolicyDecision
evaluate e tool_name =
    let name = norm tool_name in
    evaluate_deny e name (nonempty_name (find_deny_scope e.scopes name))
