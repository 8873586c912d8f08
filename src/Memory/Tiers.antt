-- ===== src/Memory/Tiers.antt =====
-- Where the candidates of a recall go (zen_claw/agent/memory_ternary.py).
use zen_claw.Base.{
  ℕ, ◌+◌, ◌≤◌, String, ◌≡◌, refl, ap, ◌∙◌, Bool, List, [], ◌∷◌, ltb, leb, length, take, drop, keep,
  map, count, count-append, take-append-drop, length-take, arith, Bool-cases, inl, inr,
  if◌then◌else◌,
}
use zen_claw.Base.Dict.{Dict, get}
use zen_claw.Memory.Ternary.{
  TernaryConfig, TernaryTier, accept, reject, uncertain, TernaryResult, MemoryRecallStrategy,
  Scored, insert_scored, sort_scored, classify, filed, scored_by, or_zero, tiers, capped, map_from,
  bulk_score_with, ternary_score,
}

module _ (p : Scored → Bool) where
  -- the candidates of all tiers that the test holds of
  unfoldable total : TernaryResult → ℕ
  total r = count p r.accepted + count p r.uncertain_ones + count p r.rejected

  count-insert_scored :
      (x : Scored) (ys : List Scored) → count p (insert_scored x ys) ≡ count p (x ∷ ys)
  unfolding insert_scored count
  count-insert_scored x [] = refl
  count-insert_scored x (y ∷ ys) = ground (arith, count-insert_scored x ys)

  count-sort_scored : (xs : List Scored) → count p (sort_scored xs) ≡ count p xs
  unfolding sort_scored count
  count-sort_scored [] = refl
  count-sort_scored (x ∷ xs) =
      omega (arith, count-insert_scored x (sort_scored xs), count-sort_scored xs)

  total-filed :
      (t : TernaryTier) (x : Scored) (r : TernaryResult)
      → total (filed t x r) ≡ (if p x then 1 else 0) + total r
  unfolding total count
  total-filed accept x r = omega arith
  total-filed uncertain x r = omega arith
  total-filed reject x r = omega arith

  total-tiers :
      (cfg : TernaryConfig) (scores : Dict ℕ) (candidates : List String)
      → total (tiers cfg scores candidates) ≡ count p (map (scored_by scores) candidates)
  unfolding tiers total count
  total-tiers cfg scores [] = refl
  total-tiers cfg scores (c ∷ cs) = omega (
    arith,
    total-filed (classify cfg (or_zero (get scores c))) (scored_by scores c) (tiers cfg scores cs),
    total-tiers cfg scores cs,
  )

  total-capped : (n : ℕ) (r : TernaryResult) → total (capped n r) ≡ total r
  unfolding capped total
  total-capped n r = elim (Bool-cases (ltb n (length r.uncertain_ones))) [
    | inr e ↦ rw e refl
    | inl e ↦ rw e (
        omega (
          arith,
          count-append p r.rejected (drop n (sort_scored r.uncertain_ones)),
          count-append p (take n (sort_scored r.uncertain_ones))
              (drop n (sort_scored r.uncertain_ones)),
          ap (count p) (take-append-drop n (sort_scored r.uncertain_ones)),
          count-sort_scored r.uncertain_ones,
        ))
  ]

unfoldable pub is_accepted : TernaryConfig → Scored → Bool
is_accepted cfg x = leb cfg.accept_threshold x.0

accepted-tiers :
    (cfg : TernaryConfig) (scores : Dict ℕ) (candidates : List String)
    → (tiers cfg scores candidates).accepted
      ≡ keep (is_accepted cfg) (map (scored_by scores) candidates)
unfolding tiers keep is_accepted classify
accepted-tiers cfg scores [] = refl
accepted-tiers cfg scores (c ∷ cs) =
    let s = or_zero (get scores c) in
    elim (Bool-cases (leb cfg.accept_threshold s)) [
      | inl e ↦ rw e (ap (λ l. scored_by scores c ∷ l) (accepted-tiers cfg scores cs))
      | inr e ↦ elim (Bool-cases (leb s cfg.reject_threshold)) [
        | inl f ↦ rw (e, f) (accepted-tiers cfg scores cs)
        | inr f ↦ rw (e, f) (accepted-tiers cfg scores cs)
      ]
    ]

accepted-capped : (n : ℕ) (r : TernaryResult) → (capped n r).accepted ≡ r.accepted
unfolding capped
accepted-capped n r = elim (Bool-cases (ltb n (length r.uncertain_ones))) [
  | inl e ↦ rw e refl
  | inr e ↦ rw e refl
]

length-capped : (n : ℕ) (r : TernaryResult) → length (capped n r).uncertain_ones ≤ n
unfolding capped
length-capped n r = elim (Bool-cases (ltb n (length r.uncertain_ones))) [
  | inl e ↦ rw e (omega (arith, length-take n (sort_scored r.uncertain_ones)))
  | inr e ↦ rw e (ground (arith, e))
]

-- Whatever the primary strategy answers, `ternary_score` puts every candidate, with its score, in
-- exactly one of the three tiers, as often as it is a candidate; the accepted are those whose score
-- reaches the threshold, in their order; and no more are uncertain than the configuration admits.
pub ternary_score-tiers :
    (cfg : TernaryConfig) (primary : MemoryRecallStrategy) (query : String)
    (candidates : List String)
    → let scores = map_from [] (bulk_score_with primary query candidates) in
      let scored = map (scored_by scores) candidates in
      let r = ternary_score cfg primary query candidates in
      (r.accepted ≡ keep (is_accepted cfg) scored)
      × (length r.uncertain_ones ≤ cfg.max_uncertain_candidates)
      × ((p : Scored → Bool)
          → count p r.accepted + count p r.uncertain_ones + count p r.rejected ≡ count p scored)
unfolding ternary_score
ternary_score-tiers cfg primary query candidates =
    let scores = map_from [] (bulk_score_with primary query candidates) in
    let n = cfg.max_uncertain_candidates in
    let r = tiers cfg scores candidates in
    (
      accepted-capped n r ∙ accepted-tiers cfg scores candidates,
      length-capped n r,
      λ p. unfold total in total-capped p n r ∙ total-tiers p cfg scores candidates,
    )
