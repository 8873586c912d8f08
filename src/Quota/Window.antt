-- ===== src/Quota/Window.antt =====
-- `_LocalSlidingWindow` and `QuotaEngine` of zen_claw/agent/tools/quota.py. The clock counts in
-- milliseconds from its start; a window is given in seconds. What Redis says is an argument.
use zen_claw.Base.{
  ℕ, ◌+◌, ◌*◌, String, Bool, true, false, not, Option, none, some, List, [], ◌∷◌, ◌++◌, ◌==◌, ltb,
  leb, length, keep, if◌then◌else◌,
}
use zen_claw.Base.Dict.{Dict, get, put}
use Prim.Native.String.{◌++◌ as str_append}

-- `self._windows`
abbrev pub Windows : Type 0
Windows = Dict (List ℕ)

abbrev or_nothing_yet : Option (List ℕ) → List ℕ
or_nothing_yet none = []
or_nothing_yet (some history) = history

-- `defaultdict(list)[key]`
unfoldable pub history_of : Windows → String → List ℕ
history_of w key = or_nothing_yet (get w key)

-- `t > now - window_sec`
unfoldable pub is_recent : ℕ → ℕ → ℕ → Bool
is_recent window_sec now t = ltb now (t + window_sec * 1000)

unfoldable pub prune : ℕ → ℕ → List ℕ → List ℕ
prune window_sec now history = keep (is_recent window_sec now) history

-- `check`
unfoldable pub check : Windows → String → ℕ → ℕ → ℕ → Windows × Bool
check w key limit window_sec now =
    let history = prune window_sec now (history_of w key) in
    if leb limit (length history)
    then (put w key history, false)
    else (put w key (history ++ now ∷ []), true)

pub record QuotaEngine : Type 0 where
  pub enabled : Bool
  pub local : Windows

-- What the Redis script answers; `none` if there is no Redis or the call fails.
abbrev pub Remote : Type 0
Remote = Option Bool

-- `_check`
unfoldable pub check_key : QuotaEngine → Remote → String → ℕ → ℕ → ℕ → QuotaEngine × Bool
check_key e (some allowed) key limit window_sec now = (e, allowed)
check_key e none key limit window_sec now =
    let (local, allowed) = check e.local key limit window_sec now in
    (record e { local = local }, allowed)

unfoldable pub tool_key : String → String → String
tool_key tenant_id tool_name =
    str_append "quota:tenant:"
      (str_append tenant_id (str_append ":" (str_append tool_name ":rate")))

unfoldable pub capability_key : String → String → String
capability_key tenant_id capability =
    str_append "quota:tenant:"
      (str_append tenant_id (str_append ":capability:" (str_append capability ":rate")))

-- `capability and capability_limit is not None and capability_limit > 0`: the limit that applies
unfoldable pub applied_limit : String → Option ℕ → Option ℕ
applied_limit capability none = none
applied_limit capability (some limit) =
    if capability == "" then none else if ltb 0 limit then some limit else none

-- The two checks of a call read the clock, and Redis, one after the other.
unfoldable pub check_quota :
    QuotaEngine → String → String → String → Option ℕ → Remote → ℕ → Remote → ℕ → QuotaEngine × Bool
check_quota e tenant_id tool_name capability capability_limit remote now remote₂ now₂ =
    if not e.enabled
    then (e, true)
    else let (e₁, tool_allowed) = check_key e remote (tool_key tenant_id tool_name) 100 3600 now in
      if not tool_allowed then (e₁, false) else elim (applied_limit capability capability_limit) [
        | none ↦ (e₁, true)
        | some limit ↦ check_key e₁ remote₂ (capability_key tenant_id capability) limit 3600 now₂
      ]
