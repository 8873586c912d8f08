-- ===== src/Memory/Ternary.antt =====
-- zen_claw/agent/memory_ternary.py. Scores are counted in a unit of their own and are not negative.
use zen_claw.Base.{
  ℕ, String, Bool, true, false, Option, none, some, List, [], ◌∷◌, ◌++◌, max, eqb, ltb, leb, length,
  take, drop, keep, map, if◌then◌else◌,
}
use zen_claw.Base.Dict.{Dict, get, put}

pub data TernaryTier : Type 0 where
  reject uncertain accept : TernaryTier

pub record TernaryConfig : Type 0 where
  pub reject_threshold : ℕ
  pub accept_threshold : ℕ
  pub max_uncertain_candidates : ℕ
  pub secondary_accept_threshold : ℕ

abbrev or_accept : Option ℕ → ℕ → ℕ
or_accept none accept_threshold = accept_threshold
or_accept (some threshold) accept_threshold = threshold

-- `TernaryConfig(...)` with `__post_init__`; none stands for the ValueError
unfoldable pub config : ℕ → ℕ → ℕ → Option ℕ → Option TernaryConfig
config reject_threshold accept_threshold max_uncertain secondary =
    if leb accept_threshold reject_threshold
    then none
    else some record {
      reject_threshold = reject_threshold;
      accept_threshold = accept_threshold;
      max_uncertain_candidates = max_uncertain;
      secondary_accept_threshold = or_accept secondary accept_threshold;
    }

-- a candidate with its score
abbrev pub Scored : Type 0
Scored = ℕ × String

pub record TernaryResult : Type 0 where
  pub accepted : List Scored
  pub uncertain_ones : List Scored
  pub rejected : List Scored

unfoldable pub insert_scored : Scored → List Scored → List Scored
insert_scored x [] = x ∷ []
insert_scored x (y ∷ ys) =
    let later = insert_scored x ys in if leb y.0 x.0 then x ∷ y ∷ ys else y ∷ later

-- `sorted(xs, key=lambda x: x[0], reverse=True)`: equal scores keep their order
unfoldable pub sort_scored : List Scored → List Scored
sort_scored [] = []
sort_scored (x ∷ xs) = insert_scored x (sort_scored xs)

-- `all_promoted`
unfoldable pub all_promoted : TernaryResult → List Scored
all_promoted r = sort_scored r.accepted

-- A strategy that scores many candidates at once, or each by itself.
pub data MemoryRecallStrategy : Type 0 where
  bulk : (String → List String → List Scored) → MemoryRecallStrategy
  per_item : (String → String → ℕ) → MemoryRecallStrategy

unfoldable pub positive : (String → ℕ) → List String → List Scored
positive score [] = []
positive score (c ∷ cs) =
    let rest = positive score cs in if ltb 0 (score c) then (score c, c) ∷ rest else rest

-- `_bulk_score_with`
unfoldable pub bulk_score_with : MemoryRecallStrategy → String → List String → List Scored
bulk_score_with (bulk f) query candidates = f query candidates
bulk_score_with (per_item score) query candidates = sort_scored (positive (score query) candidates)

-- `{text: s for s, text in scored}`
unfoldable pub map_from : Dict ℕ → List Scored → Dict ℕ
map_from scores [] = scores
map_from scores (x ∷ xs) = map_from (put scores x.1 x.0) xs

abbrev pub or_zero : Option ℕ → ℕ
or_zero none = 0
or_zero (some s) = s

-- `classify`
unfoldable pub classify : TernaryConfig → ℕ → TernaryTier
classify cfg score =
    if leb cfg.accept_threshold score
    then accept
    else if leb score cfg.reject_threshold
    then reject
    else uncertain

-- the list that the pair is appended to
abbrev pub filed : TernaryTier → Scored → TernaryResult → TernaryResult
filed accept x r = record r { accepted = x ∷ r.accepted }
filed uncertain x r = record r { uncertain_ones = x ∷ r.uncertain_ones }
filed reject x r = record r { rejected = x ∷ r.rejected }

abbrev pub scored_by : Dict ℕ → String → Scored
scored_by scores candidate = (or_zero (get scores candidate), candidate)

-- the loop of `ternary_score` over the candidates
unfoldable pub tiers : TernaryConfig → Dict ℕ → List String → TernaryResult
tiers cfg scores [] = record { accepted = []; uncertain_ones = []; rejected = [] }
tiers cfg scores (c ∷ cs) =
    filed (classify cfg (or_zero (get scores c))) (scored_by scores c) (tiers cfg scores cs)

-- the cap on the uncertain candidates
unfoldable pub capped : ℕ → TernaryResult → TernaryResult
capped n r =
    let by_score = sort_scored r.uncertain_ones in
    if ltb n (length r.uncertain_ones)
    then record r { uncertain_ones = take n by_score; rejected = r.rejected ++ drop n by_score }
    else r

-- `ternary_score`
unfoldable pub ternary_score :
    TernaryConfig → MemoryRecallStrategy → String → List String → TernaryResult
ternary_score cfg primary query candidates =
    capped cfg.max_uncertain_candidates
      (tiers cfg (map_from [] (bulk_score_with primary query candidates)) candidates)

-- `self._config.secondary_accept_threshold or self._config.accept_threshold`
unfoldable pub threshold_of : TernaryConfig → ℕ
threshold_of cfg =
    if eqb cfg.secondary_accept_threshold 0
    then cfg.accept_threshold
    else cfg.secondary_accept_threshold

unfoldable pub promoted : ℕ → Dict ℕ → List Scored → List Scored
promoted threshold scores [] = []
promoted threshold scores (x ∷ xs) =
    let rest = promoted threshold scores xs in
    let secondary_score = or_zero (get scores x.1) in
    if leb threshold secondary_score then (max x.0 secondary_score, x.1) ∷ rest else rest

unfoldable pub demoted : ℕ → Dict ℕ → List Scored → List Scored
demoted threshold scores [] = []
demoted threshold scores (x ∷ xs) =
    let rest = demoted threshold scores xs in
    if leb threshold (or_zero (get scores x.1)) then rest else x ∷ rest

abbrev text_of : Scored → String
text_of x = x.1

-- `resolve_uncertain`
unfoldable pub resolve_uncertain :
    TernaryConfig → MemoryRecallStrategy → String → List Scored → List Scored × List Scored
resolve_uncertain cfg secondary query [] = ([], [])
resolve_uncertain cfg secondary query (x ∷ xs) =
    let scores = map_from [] (bulk_score_with secondary query (map text_of (x ∷ xs))) in
    (promoted (threshold_of cfg) scores (x ∷ xs), demoted (threshold_of cfg) scores (x ∷ xs))

-- `ternary_recall`
unfoldable pub ternary_recall :
    TernaryConfig → MemoryRecallStrategy → MemoryRecallStrategy → String → List String → List Scored
ternary_recall cfg primary secondary query candidates =
    let result = ternary_score cfg primary query candidates in
    sort_scored (result.accepted ++ (resolve_uncertain cfg secondary query result.uncertain_ones).0)

-- `TriternaryRecallStrategy.score`, as a tier
unfoldable pub snapped : TernaryConfig → ℕ → TernaryTier
snapped cfg raw =
    if leb cfg.accept_threshold raw
    then accept
    else if ltb raw cfg.reject_threshold
    then reject
    else uncertain

-- `TriternaryRecallStrategy.recall`
unfoldable pub recall : TernaryConfig → (String → ℕ) → List String → ℕ → List String
recall cfg score candidates max_results =
    take max_results (keep (λ c. is_accept (snapped cfg (score c))) candidates)
  where
    is_accept : TernaryTier → Bool
    is_accept accept = true
    is_accept _ = false
