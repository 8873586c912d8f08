-- ===== src/ToolPolicy/Verdict.antt =====
-- When `evaluate` allows a tool, against a description that names no order of the scopes.
use zen_claw.Base.{
  String, ◌≡◌, refl, Bool, true, false, not, ◌&&◌, ◌||◌, some, [], ◌∷◌, ◌==◌, is_some, arith, All,
  any,
}
use zen_claw.Base.Text.{norm}
use zen_claw.Base.Dict.{Dict}
use zen_claw.Base.Sets.{contains}
use zen_claw.ToolPolicy.Rules.{
  ToolPolicyScope, Engine, AllowSearch, permitted, not_listed, undefined, matches, find_deny_scope,
  nonempty_name, search_allow, evaluate_allow, evaluate_deny, evaluate,
}

abbrev pub HasNames : Dict ToolPolicyScope → Type 0
HasNames = All (λ e. (e.0 == "") ≡ false)

unfoldable pub denies : Dict ToolPolicyScope → String → Bool
unfolding any
denies scopes name = any (λ e. matches e.1.deny name) scopes

unfoldable pub permits : Dict ToolPolicyScope → String → Bool
unfolding any
permits scopes name = any (λ e. matches e.1.allow name) scopes

unfoldable pub restricts : Dict ToolPolicyScope → Bool
unfolding any
restricts scopes = any (λ e. is_some e.1.allow) scopes

pub is_some-find_deny_scope :
    (scopes : Dict ToolPolicyScope) (name : String)
    → HasNames scopes
    → is_some (nonempty_name (find_deny_scope scopes name)) ≡ denies scopes name
unfolding find_deny_scope nonempty_name denies
is_some-find_deny_scope [] name h = refl
is_some-find_deny_scope ((s, scope) ∷ rest) name h =
    ground (arith, is_some-find_deny_scope rest name h.1)

abbrev Outcome : Bool → Bool → AllowSearch → Type 0
Outcome p r permitted = p ≡ true
Outcome p r not_listed = (p ≡ false) × (r ≡ true)
Outcome p r undefined = (p ≡ false) × (r ≡ false)

search_allow-Outcome :
    (scopes : Dict ToolPolicyScope) (name : String) (seen : Bool)
    → Outcome (permits scopes name) (seen || restricts scopes) (search_allow scopes name seen)
unfolding search_allow permits restricts
search_allow-Outcome [] name seen = ground arith
search_allow-Outcome ((s, scope) ∷ rest) name seen =
    ground (arith, search_allow-Outcome rest name (seen || is_some scope.allow))

-- If every scope has a nonempty name, a tool is allowed exactly when no scope denies it, and either
-- some scope's allow list permits it, or no scope has an allow list and the tool is not in the
-- default deny set. The order of the scopes has no influence.
pub evaluate-allowed :
    (e : Engine) (tool_name : String)
    → HasNames e.scopes
    → (evaluate e tool_name).allowed ≡ (
        not (denies e.scopes (norm tool_name))
        && (permits e.scopes (norm tool_name)
            || not (restricts e.scopes) && not (contains (norm tool_name) e.default_deny_tools)))
unfolding evaluate evaluate_deny evaluate_allow
evaluate-allowed e t h = ground (
  arith,
  is_some-find_deny_scope e.scopes (norm t) h,
  search_allow-Outcome e.scopes (norm t) false,
)

-- A deny rule of a scope whose name is the empty text is lost: if it is the first that denies the
-- tool, the verdict is that of the allow lists and the default deny set alone.
pub evaluate_unnamed_deny :
    (e : Engine) (tool_name : String)
    → find_deny_scope e.scopes (norm tool_name) ≡ some ""
    → (evaluate e tool_name).allowed ≡ (
        permits e.scopes (norm tool_name)
        || not (restricts e.scopes) && not (contains (norm tool_name) e.default_deny_tools))
unfolding evaluate evaluate_deny evaluate_allow nonempty_name
evaluate_unnamed_deny e t h = ground (arith, search_allow-Outcome e.scopes (norm t) false)
