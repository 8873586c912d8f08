-- ===== src/ToolPolicy/Tests.antt =====
-- Small engines, and the theorems at them.
use zen_claw.Base.{◌≡◌, refl, not, ◌&&◌, ◌||◌, none, some, [], ◌∷◌}
use zen_claw.Base.Text.{norm}
use zen_claw.Base.Dict.{get, put}
use zen_claw.Base.Sets.{contains, add, add_nonempty}
use zen_claw.ToolPolicy.Rules.{
  Engine, init, set_scope, matches, normalize_names, find_deny_scope, nonempty_name, search_allow,
  evaluate_allow, evaluate_deny, evaluate,
}
use zen_claw.ToolPolicy.Verdict.{denies, permits, restricts, evaluate-allowed}

abbrev layered : Engine
layered =
    set_scope (set_scope (init none) "global" none (some (" Exec " ∷ []))) "session"
      (some ("*" ∷ [])) none

program : Unit {0}
unfolding init set_scope evaluate evaluate_deny evaluate_allow search_allow find_deny_scope
    nonempty_name matches normalize_names norm contains add add_nonempty put get
program = tt

layered_verdicts :
    ((evaluate layered "EXEC").code ≡ "tool_policy_denied")
    × ((evaluate layered "spawn").code ≡ "tool_policy_allowed")
    × ((evaluate (init none) "spawn").code ≡ "tool_policy_default_deny")
unfolding program
layered_verdicts = (refl, refl, refl)

evaluate-allowed_example : (evaluate layered "spawn").allowed ≡ (
    not (denies layered.scopes (norm "spawn"))
    && (permits layered.scopes (norm "spawn")
        || not (restricts layered.scopes)
          && not (contains (norm "spawn") layered.default_deny_tools)))
unfolding program
evaluate-allowed_example = evaluate-allowed layered "spawn" (refl, (refl, tt))

abbrev unnamed : Engine
unnamed = set_scope (init none) "" (some ("read" ∷ [])) (some ("read" ∷ []))
