-- ===== src/Knowledge/Rerank.antt =====
-- `LLMReranker` of zen_claw/knowledge/reranker.py. What the model answers is an argument: the items
-- of the JSON array that its text is, and of the first array inside the text, each with the number
-- that `int` reads from it; a number below zero reads as no number, since it is refused all the same.
use zen_claw.Base.{
  ℕ, zero, suc, Bool, false, not, ◌&&◌, ◌||◌, Option, none, some, List, [], ◌∷◌, ◌++◌, max, leb,
  ltb, eqb, length, take, if◌then◌else◌,
}

abbrev pub Items : Type 0
Items = List (Option ℕ)

-- The answer of the model: both lists are empty where there is no array. The call can fail.
pub record Answer : Type 0 where
  pub whole : Items
  pub embedded : Items

-- `i in seen`
unfoldable pub is_seen : ℕ → List ℕ → Bool
is_seen i [] = false
is_seen i (j ∷ seen) = eqb i j || is_seen i seen

abbrev pub kept : ℕ → List ℕ → Option ℕ → List ℕ
kept n result none = result
kept n result (some idx) =
    if leb 1 idx && leb idx n && not (is_seen idx result) then result ++ idx ∷ [] else result

-- the loop of `_extract`; what is in `result` is what was seen
unfoldable pub extract : ℕ → List ℕ → Items → List ℕ
extract n result [] = result
extract n result (item ∷ items) = extract n (kept n result item) items

-- `if indices: return indices`
abbrev pub or_embedded : List ℕ → List ℕ → List ℕ
or_embedded [] embedded = embedded
or_embedded (i ∷ indices) embedded = i ∷ indices

-- `_parse_ranking`
unfoldable pub parse_ranking : Answer → ℕ → List ℕ
parse_ranking a n = or_embedded (extract n [] a.whole) (extract n [] a.embedded)

-- `__init__`
unfoldable pub fetch_top_n : ℕ → ℕ
fetch_top_n n = max 1 n

unfoldable pub seen_after : List ℕ → List ℕ → List ℕ
seen_after [] seen = seen
seen_after (idx ∷ indices) seen = seen_after indices (if is_seen idx seen then seen else idx ∷ seen)

module _ {ℓ} {A : Type ℓ} where
  -- `candidates[i]`; none stands for the IndexError
  unfoldable pub nth : List A → ℕ → Option A
  nth [] i = none
  nth (c ∷ candidates) zero = some c
  nth (c ∷ candidates) (suc i) = nth candidates i

  -- `candidates[-1]`
  unfoldable pub last : List A → Option A
  last [] = none
  last (c ∷ []) = some c
  last (c ∷ d ∷ candidates) = last (d ∷ candidates)

  -- `candidates[idx - 1]`
  unfoldable pub pick : List A → ℕ → Option A
  pick candidates zero = last candidates
  pick candidates (suc i) = nth candidates i

  abbrev pub appended : Option A → Option (List A) → Option (List A)
  appended none rest = none
  appended (some c) none = none
  appended (some c) (some cs) = some (c ∷ cs)

  -- `for idx in indices: if idx not in seen: …`; none stands for the IndexError
  unfoldable pub mentioned : List A → List ℕ → List ℕ → Option (List A)
  mentioned candidates [] seen = some []
  mentioned candidates (idx ∷ indices) seen =
      if is_seen idx seen
      then mentioned candidates indices seen
      else appended (pick candidates idx) (mentioned candidates indices (idx ∷ seen))

  -- `for i, c in enumerate(candidates, 1): if i not in seen: …`
  unfoldable pub unmentioned : List ℕ → ℕ → List A → List A
  unmentioned seen i [] = []
  unmentioned seen i (c ∷ candidates) =
      let rest = unmentioned seen (suc i) candidates in if is_seen i seen then rest else c ∷ rest

  abbrev pub followed : Option (List A) → List A → Option (List A)
  followed none others = none
  followed (some cs) others = some (cs ++ others)

  -- `reranked` of `_apply_ranking`
  unfoldable pub reranked : List A → List ℕ → Option (List A)
  reranked candidates indices =
      followed (mentioned candidates indices []) (unmentioned (seen_after indices []) 1 candidates)

  abbrev pub cut : ℕ → Option (List A) → Option (List A)
  cut top_k none = none
  cut top_k (some cs) = some (take top_k cs)

  -- `_apply_ranking`
  unfoldable pub apply_ranking : List A → List ℕ → ℕ → Option (List A)
  apply_ranking candidates indices top_k = cut top_k (reranked candidates indices)

  -- an exception is caught, and the order stays
  abbrev pub or_original : List A → ℕ → Option (List A) → List A
  or_original candidates top_k none = take top_k candidates
  or_original candidates top_k (some cs) = cs

  abbrev pub ranked_by : List A → ℕ → List ℕ → List A
  ranked_by candidates top_k [] = take top_k candidates
  ranked_by candidates top_k (i ∷ indices) =
      or_original candidates top_k (apply_ranking candidates (i ∷ indices) top_k)

  -- `rerank`; `none` is a call of the model that fails
  unfoldable pub rerank : List A → ℕ → Option Answer → List A
  rerank candidates asked none =
      let top_k = max 1 asked in
      if ltb (length candidates) top_k then candidates else take top_k candidates
  rerank candidates asked (some answer) =
      let top_k = max 1 asked in
      if ltb (length candidates) top_k
      then candidates
      else ranked_by candidates top_k (parse_ranking answer (length candidates))
