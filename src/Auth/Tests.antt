-- ===== src/Auth/Tests.antt =====
-- Runs of the API keys, and instances of their theorems.
use zen_claw.Base.{String, ◌≡◌, refl, true, false, List, [], ◌∷◌}
use zen_claw.Base.Text.{starts_with}
use zen_claw.Base.Strings.{take_chars}
use zen_claw.Base.Dict.{Dict, get, put}
use zen_claw.Auth.ApiKeys.{
  KeyEntry, is_usable, role_weight, is_role, prefix_of, create, verify, get_role, has_role, revoke,
  revoke_from,
}
use zen_claw.Auth.Refinement.{Op, create_key, revoke_prefix, view, run, spec_run, verify-run}
use Prim.Native.String.{◌++◌}

abbrev hash : String → String
hash s = "sha256:" ++ s

abbrev store : Dict KeyEntry
store = create hash [] "nc-0123456789abcdef" "operator" "ci" 1700000000

operator_runs : has_role hash store "nc-0123456789abcdef" "operator" ≡ true
unfolding has_role get_role create put get role_weight is_role prefix_of take_chars
operator_runs = refl

-- a short text disables every key that starts with it, here all of them
revoke_runs : verify hash (revoke store "nc-").0 "nc-0123456789abcdef" ≡ false
unfolding verify revoke revoke_from create put get starts_with prefix_of take_chars
revoke_runs = refl

abbrev ops : List Op
ops = create_key "nc-fedcba9876543210" "admin" "" 1700000002 ∷ revoke_prefix "nc-0123" ∷ []

verify-run_example :
    verify hash (run hash store ops) "nc-fedcba9876543210"
    ≡ is_usable (spec_run hash (view store) ops (hash "nc-fedcba9876543210"))
verify-run_example = verify-run hash ops store "nc-fedcba9876543210"
