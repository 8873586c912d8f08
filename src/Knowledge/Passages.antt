-- ===== src/Knowledge/Passages.antt =====
-- No answer of the model loses or repeats a passage (zen_claw/knowledge/reranker.py).
use zen_claw.Base.{
  ℕ, zero, suc, ◌+◌, ◌≤◌, ◌<◌, ◌≡◌, refl, Bool, true, false, Option, none, some, List, [], ◌∷◌, max,
  min, length, take, count, count-append, length-take, arith, Bool-cases, inl, inr, ap, ◌∙◌, All,
  sym,
}
use mathlib.Core.Option
use zen_claw.Knowledge.Rerank.{
  Answer, is_seen, parse_ranking, seen_after, unmentioned, reranked, apply_ranking, ranked_by,
  rerank,
}
use zen_claw.Knowledge.Indices.{
  parse_ranking-IsIndex, IsIndex, at, found, ordered, reranked-ordered,
}

module _ {ℓ} {A : Type ℓ} (p : A → Bool) where
  unmentioned_past :
      (idx : ℕ) (seen : List ℕ) (candidates : List A) (i : ℕ)
      → idx < i
      → unmentioned (idx ∷ seen) i candidates ≡ unmentioned seen i candidates
  unfolding unmentioned is_seen
  unmentioned_past idx seen [] i h = refl
  unmentioned_past idx seen (c ∷ candidates) i h =
      ground (arith, unmentioned_past idx seen candidates (suc i))

  -- a passage that is picked leaves the list of those not mentioned
  count-at :
      (idx : ℕ) (seen : List ℕ) (candidates : List A) (i : ℕ)
      → is_seen idx seen ≡ false
      → count p (at i candidates idx) + count p (unmentioned (idx ∷ seen) i candidates)
        ≡ count p (unmentioned seen i candidates)
  unfolding at unmentioned count is_seen
  count-at idx seen [] i h = refl
  count-at idx seen (c ∷ candidates) i h =
      ground
        (arith, count-at idx seen candidates (suc i), unmentioned_past idx seen candidates (suc i))

  count-found :
      (candidates : List A) (indices seen : List ℕ)
      → count p (found candidates indices seen)
          + count p (unmentioned (seen_after indices seen) 1 candidates)
        ≡ count p (unmentioned seen 1 candidates)
  unfolding found seen_after
  count-found candidates [] seen = unfold count in omega arith
  count-found candidates (idx ∷ indices) seen = elim (Bool-cases (is_seen idx seen)) [
    | inl e ↦ rw e (count-found candidates indices seen)
    | inr e ↦ rw e (
        omega (
          arith,
          count-append p (at 1 candidates idx) (found candidates indices (idx ∷ seen)),
          count-found candidates indices (idx ∷ seen),
          count-at idx seen candidates 1 e,
        ))
  ]

  unmentioned_none : (candidates : List A) (i : ℕ) → unmentioned [] i candidates ≡ candidates
  unfolding unmentioned is_seen
  unmentioned_none [] i = refl
  unmentioned_none (c ∷ candidates) i = rw (unmentioned_none candidates (suc i))

  count-ordered :
      (candidates : List A) (indices : List ℕ)
      → count p (ordered candidates indices) ≡ count p candidates
  unfolding ordered
  count-ordered candidates indices =
      count-append p (found candidates indices [])
        (unmentioned (seen_after indices []) 1 candidates)
      ∙ count-found candidates indices []
      ∙ ap (count p) (unmentioned_none candidates 1)

  count-take : (n : ℕ) (xs : List A) → count p (take n xs) ≤ count p xs
  unfolding count
  count-take zero xs = omega arith
  count-take (suc n) [] = omega arith
  count-take (suc n) (x ∷ xs) = omega (arith, count-take n xs)

  -- The numbers that `_parse_ranking` reads from an answer, whatever the answer is, never make
  -- `_apply_ranking` raise, and before the cut the reordered list has every passage as often as the
  -- candidates have it: it is a permutation of them.
  pub count-reranked :
      (candidates : List A) (answer : Answer)
      → Option.map (count p) (reranked candidates (parse_ranking answer (length candidates)))
        ≡ some (count p candidates)
  count-reranked candidates answer =
      let indices = parse_ranking answer (length candidates) in
      rw (reranked-ordered candidates indices (parse_ranking-IsIndex answer (length candidates)))
        (ap some (count-ordered candidates indices))

ordered_none {ℓ} : {A : Type ℓ} (candidates : List A) → ordered candidates [] ≡ candidates
unfolding ordered found seen_after
ordered_none candidates = unmentioned_none (λ c. true) candidates 1

ranked_by-ordered {ℓ} :
    {A : Type ℓ} (candidates : List A) (top_k : ℕ) (indices : List ℕ)
    → All (IsIndex (length candidates)) indices
    → ranked_by candidates top_k indices ≡ take top_k (ordered candidates indices)
unfolding apply_ranking
ranked_by-ordered candidates top_k [] h = ap (take top_k) (sym (ordered_none candidates))
ranked_by-ordered candidates top_k (i ∷ indices) h =
    rw (reranked-ordered candidates (i ∷ indices) h) refl

length-count_all {ℓ} : {A : Type ℓ} (xs : List A) → count (λ x. true) xs ≡ length xs
unfolding count
length-count_all [] = refl
length-count_all (x ∷ xs) = omega (arith, length-count_all xs)

length-ordered {ℓ} :
    {A : Type ℓ} (candidates : List A) (indices : List ℕ)
    → length (ordered candidates indices) ≡ length candidates
length-ordered candidates indices = omega (
  arith,
  length-count_all (ordered candidates indices),
  length-count_all candidates,
  count-ordered (λ x. true) candidates indices,
)

-- For every answer of the model, and where the call fails, `rerank` returns as many passages as were
-- asked for, at least one, or all where there are fewer, and none of them more often than it stands
-- among the candidates.
pub rerank_sound {ℓ} :
    {A : Type ℓ} (candidates : List A) (asked : ℕ) (answer : Option Answer)
    → (length (rerank candidates asked answer) ≡ min (max 1 asked) (length candidates))
      × ((p : A → Bool) → count p (rerank candidates asked answer) ≤ count p candidates)
unfolding rerank
rerank_sound candidates asked none = (
  ground (arith, length-take (max 1 asked) candidates),
  λ p. ground (arith, count-take p (max 1 asked) candidates),
)
rerank_sound candidates asked (some answer) =
    let indices = parse_ranking answer (length candidates) in
    let top_k = max 1 asked in
    rw
      (ranked_by-ordered candidates top_k indices
        (parse_ranking-IsIndex answer (length candidates)))
      (
        ground (
          arith,
          length-take top_k (ordered candidates indices),
          length-ordered candidates indices,
        ),
        λ p. ground (
          arith,
          count-take p top_k (ordered candidates indices),
          count-ordered p candidates indices,
        ),
      )
