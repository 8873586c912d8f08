-- ===== src/ToolPolicy/Scopes.antt =====
-- How `set_scope` and `clear_scope` change the verdicts.
use zen_claw.Base.{
  String, ◌≡◌, refl, ap, ◌∙◌, true, false, Option, none, some, List, [], ◌∷◌, ◌==◌, map, arith,
  eq_iff, Bool-cases, inl, inr,
}
use zen_claw.Base.Text.{norm}
use zen_claw.Base.Dict.{Dict, get, put, remove}
use zen_claw.Base.Sets.{contains, contains-add_nonempty}
use zen_claw.ToolPolicy.Rules.{
  ToolPolicyScope, ToolPolicyDecision, Engine, normalize_names, matches, set_scope, clear_scope,
  evaluate, evaluate_deny,
}
use zen_claw.ToolPolicy.Verdict.{HasNames, denies, is_some-find_deny_scope}

abbrev pub IsDenied : ToolPolicyDecision → Type 0
IsDenied d = (d.allowed ≡ false) × (d.code ≡ "tool_policy_denied")

HasNames-put :
    (d : Dict ToolPolicyScope) (s : String) (x : ToolPolicyScope)
    → (s == "") ≡ false
    → HasNames d
    → HasNames (put d s x)
unfolding put
HasNames-put [] s x e h = (e, tt)
HasNames-put ((j, w) ∷ d) s x e h = elim (Bool-cases (j == s)) [
  | inl p ↦ rw p h
  | inr p ↦ rw p (h.0, HasNames-put d s x e h.1)
]

denies-put :
    (d : Dict ToolPolicyScope) (s name : String) (x : ToolPolicyScope)
    → matches x.deny name ≡ true
    → denies (put d s x) name ≡ true
unfolding put denies
denies-put [] s name x e = ground arith
denies-put ((j, w) ∷ d) s name x e = ground (arith, denies-put d s name x e)

IsDenied-of_denies :
    (e : Engine) (tool : String)
    → HasNames e.scopes
    → denies e.scopes (norm tool) ≡ true
    → IsDenied (evaluate e tool)
unfolding evaluate evaluate_deny
IsDenied-of_denies e tool h d = ground (arith, is_some-find_deny_scope e.scopes (norm tool) h)

contains-map-norm :
    (t : String) (names : List String)
    → contains t names ≡ true
    → contains (norm t) (map norm names) ≡ true
unfolding contains
contains-map-norm t [] h = ground arith
contains-map-norm t (n ∷ ns) h =
    ground
      (arith, eq_iff t n, eq_iff (norm t) (norm n), ap norm {x = t} {y = n}, contains-map-norm t ns)

matches-normalize_names :
    (names : List String) (t : String)
    → contains t names ≡ true
    → (norm t == "") ≡ false
    → matches (some (normalize_names names)) (norm t) ≡ true
unfolding matches normalize_names contains
matches-normalize_names names t c b =
    ground
      (arith, contains-add_nonempty (norm t) [] (map norm names) b, contains-map-norm t names c)

-- After `set_scope` with a nonempty scope name and a deny list that holds some spelling of a tool
-- (up to surrounding space and letter case, and not blank), the tool is denied with the code
-- `tool_policy_denied`, whatever the other scopes, the allow lists and the default say, provided
-- that their names are nonempty too.
pub evaluate-set_scope_deny :
    (e : Engine) (scope : String) (allow : Option (List String)) (deny : List String)
    (listed tool : String)
    → HasNames e.scopes
    → (scope == "") ≡ false
    → contains listed deny ≡ true
    → norm tool ≡ norm listed
    → (norm listed == "") ≡ false
    → IsDenied (evaluate (set_scope e scope allow (some deny)) tool)
unfolding set_scope
evaluate-set_scope_deny e scope allow deny listed tool h s c n b =
    IsDenied-of_denies (set_scope e scope allow (some deny)) tool
      (HasNames-put e.scopes scope _ s h)
      (rw n (denies-put e.scopes scope (norm listed) _ (matches-normalize_names deny listed c b)))

remove-put :
    (d : Dict ToolPolicyScope) (s : String) (x : ToolPolicyScope)
    → get d s ≡ none
    → remove (put d s x) s ≡ remove d s
unfolding get put remove
remove-put [] s x h = ground (arith, eq_iff s s)
remove-put ((j, w) ∷ d) s x h = ground (arith, remove-put d s x)

remove_absent : (d : Dict ToolPolicyScope) (s : String) → get d s ≡ none → remove d s ≡ d
unfolding get remove
remove_absent [] s h = refl
remove_absent ((j, w) ∷ d) s h = ground (arith, remove_absent d s)

-- Setting a scope that is not there and clearing it again gives the engine back, so that every
-- later verdict is what it was.
pub clear_scope-set_scope :
    (e : Engine) (scope : String) (allow deny : Option (List String))
    → get e.scopes scope ≡ none
    → clear_scope (set_scope e scope allow deny) scope ≡ e
unfolding clear_scope set_scope
clear_scope-set_scope e scope allow deny h =
    ap (λ d. record e { scopes = d })
      (remove-put e.scopes scope _ h ∙ remove_absent e.scopes scope h)
