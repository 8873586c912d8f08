-- ===== src/Quota/Tests.antt =====
-- Small runs of the windows.
use zen_claw.Base.{◌≡◌, refl, eq_iff, ◌≤◌, arith, [], ◌∷◌, true, count, keep, List}
use zen_claw.Base.Dict.{get, put}
use zen_claw.Quota.Window.{
  QuotaEngine, history_of, is_recent, prune, check, check_key, tool_key, capability_key,
  applied_limit, check_quota,
}
use zen_claw.Quota.Counting.{is_within}
use zen_claw.Quota.Limits.{Check, granted, granted-IsLimited}

program : Unit {0}
unfolding get put keep count history_of is_recent prune check check_key tool_key capability_key
    applied_limit check_quota granted is_within
program = tt

-- two calls in two seconds, the third of them too early
abbrev calls : List Check
calls =
    record { key = "a"; limit = 2; window_sec = 2; now = 1000 }
    ∷ record { key = "b"; limit = 1; window_sec = 9; now = 1200 }
    ∷ record { key = "a"; limit = 2; window_sec = 2; now = 1500 }
    ∷ record { key = "a"; limit = 2; window_sec = 2; now = 2900 }
    ∷ record { key = "a"; limit = 2; window_sec = 2; now = 3000 }
    ∷ []

calls-granted : granted [] "a" calls ≡ 1000 ∷ 1500 ∷ 3000 ∷ []
unfolding program
calls-granted = refl

granted-IsLimited_example : count (is_within 2 3400) (granted [] "a" calls) ≤ 2
unfolding program
granted-IsLimited_example =
    granted-IsLimited "a" 2 2 calls
      (
        omega arith,
        λ _. (refl, refl),
        (
          omega arith,
          λ e. (ground (arith, e, eq_iff "b" "a"), ground (arith, e, eq_iff "b" "a")),
          (
            omega arith,
            λ _. (refl, refl),
            (omega arith, λ _. (refl, refl), (omega arith, λ _. (refl, refl), tt)),
          ),
        ),
      )
      3400

abbrev engine : QuotaEngine
engine = record { enabled = true; local = ("k", 5 ∷ []) ∷ [] }
