-- ===== src/Memory/Tests.antt =====
-- Runs of the recall in tiers, and an instance of its theorem.
use zen_claw.Base.{
  ◌+◌, ◌≤◌, String, ◌≡◌, refl, Bool, none, List, [], ◌∷◌, ◌==◌, length, keep, map, count,
  if◌then◌else◌,
}
use zen_claw.Base.Dict.{get, put}
use zen_claw.Memory.Ternary.{
  TernaryConfig, config, MemoryRecallStrategy, bulk, per_item, Scored, insert_scored, sort_scored,
  classify, tiers, capped, map_from, positive, bulk_score_with, scored_by, ternary_score,
  ternary_recall, resolve_uncertain, promoted, demoted, threshold_of, recall, snapped,
}
use zen_claw.Memory.Tiers.{is_accepted, ternary_score-tiers}

abbrev cfg : TernaryConfig
cfg = record {
  reject_threshold = 200;
  accept_threshold = 600;
  max_uncertain_candidates = 1;
  secondary_accept_threshold = 500;
}

abbrev primary : MemoryRecallStrategy
primary = bulk λ query cs. (300, "b") ∷ (700, "a") ∷ (400, "c") ∷ []

abbrev secondary : MemoryRecallStrategy
secondary = per_item λ query c. if c == "c" then 900 else 0

-- "d" is not scored, and "b" is one uncertain candidate too many
recall_runs :
    ternary_recall cfg primary secondary "q" ("a" ∷ "b" ∷ "c" ∷ "d" ∷ [])
    ≡ (900, "c") ∷ (700, "a") ∷ []
unfolding ternary_recall ternary_score capped tiers map_from bulk_score_with classify sort_scored
    insert_scored resolve_uncertain promoted demoted threshold_of positive get put
recall_runs = refl

config_run : config 600 600 10 none ≡ none
unfolding config
config_run = refl

snapped_runs : recall cfg (λ c. if c == "a" then 600 else 200) ("b" ∷ "a" ∷ []) 10 ≡ "a" ∷ []
unfolding recall snapped keep
snapped_runs = refl

abbrev candidates : List String
candidates = "a" ∷ "b" ∷ "c" ∷ "d" ∷ []

ternary_score-tiers_example :
    let scores = map_from [] (bulk_score_with primary "q" candidates) in
    let scored = map (scored_by scores) candidates in
    let r = ternary_score cfg primary "q" candidates in
    (r.accepted ≡ keep (is_accepted cfg) scored)
    × (length r.uncertain_ones ≤ 1)
    × ((p : Scored → Bool)
        → count p r.accepted + count p r.uncertain_ones + count p r.rejected ≡ count p scored)
ternary_score-tiers_example = ternary_score-tiers cfg primary "q" candidates
