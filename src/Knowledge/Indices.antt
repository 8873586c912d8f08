-- ===== src/Knowledge/Indices.antt =====
-- The numbers that an answer of the model names, and the passages that they stand for
-- (zen_claw/knowledge/reranker.py).
use zen_claw.Base.{
  ℕ, zero, suc, ◌+◌, ◌≤◌, ◌<◌, ◌≡◌, refl, Option, none, some, List, [], ◌∷◌, length, arith,
  Bool-cases, inl, inr, All, All-append, ◌++◌, eqb, leb, not, ◌&&◌, if◌then◌else◌,
}
use zen_claw.Knowledge.Rerank.{
  kept, or_embedded, nth, appended, extract, Items, Answer, is_seen, parse_ranking, pick, mentioned,
  seen_after, unmentioned, reranked,
}

-- the number of a passage of a list of `n`
abbrev pub IsIndex : ℕ → ℕ → Type 0
IsIndex n idx = (1 ≤ idx) × (idx ≤ n)

kept-IsIndex :
    (n : ℕ) (result : List ℕ) (item : Option ℕ)
    → All (IsIndex n) result
    → All (IsIndex n) (kept n result item)
kept-IsIndex n result none h = h
kept-IsIndex n result (some idx) h =
    elim (Bool-cases (leb 1 idx && leb idx n && not (is_seen idx result))) [
      | inr e ↦ rw e h
      | inl e ↦
          rw e (
            All-append (IsIndex n) result (idx ∷ []) h ((ground (arith, e), ground (arith, e)), tt))
    ]

extract-IsIndex :
    (n : ℕ) (result : List ℕ) (items : Items)
    → All (IsIndex n) result
    → All (IsIndex n) (extract n result items)
unfolding extract
extract-IsIndex n result [] h = h
extract-IsIndex n result (item ∷ items) h =
    extract-IsIndex n (kept n result item) items (kept-IsIndex n result item h)

or_embedded-IsIndex :
    (n : ℕ) (whole embedded : List ℕ)
    → All (IsIndex n) whole
    → All (IsIndex n) embedded
    → All (IsIndex n) (or_embedded whole embedded)
or_embedded-IsIndex n [] embedded h k = k
or_embedded-IsIndex n (i ∷ whole) embedded h k = h

-- the numbers that are read from an answer are those of passages
pub parse_ranking-IsIndex : (a : Answer) (n : ℕ) → All (IsIndex n) (parse_ranking a n)
unfolding parse_ranking
parse_ranking-IsIndex a n =
    or_embedded-IsIndex n (extract n [] a.whole) (extract n [] a.embedded)
      (extract-IsIndex n [] a.whole tt) (extract-IsIndex n [] a.embedded tt)

module _ {ℓ} {A : Type ℓ} where
  -- the passage with a number, where the first one has the number `i`
  unfoldable pub at : ℕ → List A → ℕ → List A
  at i [] idx = []
  at i (c ∷ candidates) idx =
      let rest = at (suc i) candidates idx in if eqb i idx then c ∷ [] else rest

  -- what `mentioned` gives if no number is out of range
  unfoldable pub found : List A → List ℕ → List ℕ → List A
  found candidates [] seen = []
  found candidates (idx ∷ indices) seen =
      if is_seen idx seen
      then found candidates indices seen
      else at 1 candidates idx ++ found candidates indices (idx ∷ seen)

  at_here :
      (i : ℕ) (c : A) (candidates : List A) (idx : ℕ) → idx ≡ i → at i (c ∷ candidates) idx ≡ c ∷ []
  unfolding at
  at_here i c candidates idx e = ground (arith, e)

  at_later :
      (i : ℕ) (c : A) (candidates : List A) (idx : ℕ)
      → i < idx
      → at i (c ∷ candidates) idx ≡ at (suc i) candidates idx
  unfolding at
  at_later i c candidates idx h = ground (arith, h)

  nth-at :
      (candidates : List A) (i k idx : ℕ) (rest : List A)
      → k < length candidates
      → idx ≡ k + i
      → appended (nth candidates k) (some rest) ≡ some (at i candidates idx ++ rest)
  unfolding nth
  nth-at [] i k idx rest h e = ground (arith, h)
  nth-at (c ∷ candidates) i zero idx rest h e =
      rw (at_here i c candidates idx (omega (arith, e))) refl
  nth-at (c ∷ candidates) i (suc k) idx rest h e =
      rw (at_later i c candidates idx (omega (arith, e)))
        (nth-at candidates (suc i) k idx rest (omega (arith, h)) (omega (arith, e)))

  pick-at :
      (candidates : List A) (idx : ℕ) (rest : List A)
      → IsIndex (length candidates) idx
      → appended (pick candidates idx) (some rest) ≡ some (at 1 candidates idx ++ rest)
  unfolding pick
  pick-at candidates zero rest h = ground (arith, h.0)
  pick-at candidates (suc k) rest h =
      nth-at candidates 1 k (suc k) rest (omega (arith, h.1)) (omega arith)

  mentioned-found :
      (candidates : List A) (indices seen : List ℕ)
      → All (IsIndex (length candidates)) indices
      → mentioned candidates indices seen ≡ some (found candidates indices seen)
  unfolding mentioned found
  mentioned-found candidates [] seen h = refl
  mentioned-found candidates (idx ∷ indices) seen h = elim (Bool-cases (is_seen idx seen)) [
    | inl e ↦ rw e (mentioned-found candidates indices seen h.1)
    | inr e ↦
        rw (e, mentioned-found candidates indices (idx ∷ seen) h.1)
          (pick-at candidates idx (found candidates indices (idx ∷ seen)) h.0)
  ]

  -- the reordered list, where no number is out of range
  unfoldable pub ordered : List A → List ℕ → List A
  ordered candidates indices =
      found candidates indices [] ++ unmentioned (seen_after indices []) 1 candidates

  pub reranked-ordered :
      (candidates : List A) (indices : List ℕ)
      → All (IsIndex (length candidates)) indices
      → reranked candidates indices ≡ some (ordered candidates indices)
  unfolding reranked ordered
  reranked-ordered candidates indices h = rw (mentioned-found candidates indices [] h) refl
