-- ===== src/Chunker/Pieces.antt =====
-- What the pieces of `_hard_split` of zen_claw/knowledge/chunker.py hold.
use zen_claw.Base.{
  ℕ, zero, suc, ◌≤◌, ◌<◌, ◌≡◌, refl, false, List, [], ◌∷◌, ◌++◌, arith, leb, length, take, drop,
  length-take, length-drop, take-append-drop, All, Bool-cases, inl, inr, if◌then◌else◌, ap, ◌∙◌,
}
use zen_claw.Chunker.Pack.{Chars, is_empty, stride_of, split_from, hard_split}

-- the text that pieces are cut from: of each but the last only the first `stride` characters
unfoldable pub rejoin : ℕ → List Chars → Chars
rejoin stride [] = []
rejoin stride (c ∷ cs) =
    let rest = rejoin stride cs in if is_empty cs then c else take stride c ++ rest

stride_bounds :
    (max_chars overlap : ℕ)
    → 1 ≤ max_chars
    → (1 ≤ stride_of max_chars overlap) × (stride_of max_chars overlap ≤ max_chars)
unfolding stride_of
stride_bounds max_chars overlap h = (ground arith, ground arith)

take-take : (n m : ℕ) (xs : Chars) → n ≤ m → take n (take m xs) ≡ take n xs
take-take zero m xs h = refl
take-take (suc n) zero xs h = ground arith
take-take (suc n) (suc m) [] h = refl
take-take (suc n) (suc m) (x ∷ xs) h = ap (λ l. x ∷ l) (take-take n m xs (omega arith))

take_whole : (n : ℕ) (xs : Chars) → length xs ≤ n → take n xs ≡ xs
take_whole zero [] h = refl
take_whole zero (x ∷ xs) h = ground arith
take_whole (suc n) [] h = refl
take_whole (suc n) (x ∷ xs) h = ap (λ l. x ∷ l) (take_whole n xs (omega arith))

pub is_empty-length {ℓ} : {A : Type ℓ} (xs : List A) → is_empty xs ≡ leb (length xs) 0
is_empty-length [] = refl
is_empty-length (x ∷ xs) = ground arith

split_from-solid :
    (fuel max_chars stride : ℕ) (text : Chars)
    → 1 ≤ length text
    → length text ≤ fuel
    → is_empty (split_from fuel max_chars stride text) ≡ false
unfolding split_from
split_from-solid zero max_chars stride text h enough = ground arith
split_from-solid (suc fuel) max_chars stride text h enough = ground (arith, is_empty-length text)

split_from-short :
    (fuel max_chars stride : ℕ) (text : Chars)
    → 1 ≤ length text
    → length text ≤ max_chars
    → split_from (suc fuel) max_chars stride text ≡ text ∷ []
unfolding split_from
split_from-short fuel max_chars stride text some_text short =
    ground (arith, is_empty-length text, take_whole max_chars text short)

split_from-long :
    (fuel max_chars stride : ℕ) (text : Chars)
    → max_chars < length text
    → split_from (suc fuel) max_chars stride text
      ≡ take max_chars text ∷ split_from fuel max_chars stride (drop stride text)
unfolding split_from
split_from-long fuel max_chars stride text long = ground (arith, is_empty-length text)

rejoin-cons :
    (stride : ℕ) (c : Chars) (cs : List Chars)
    → is_empty cs ≡ false
    → rejoin stride (c ∷ cs) ≡ take stride c ++ rejoin stride cs
unfolding rejoin
rejoin-cons stride c cs h = rw h

rejoin-split_from :
    (fuel max_chars stride : ℕ) (text : Chars)
    → 1 ≤ stride
    → stride ≤ max_chars
    → length text ≤ fuel
    → rejoin stride (split_from fuel max_chars stride text) ≡ text
rejoin-split_from zero max_chars stride [] h le enough = unfold rejoin split_from in refl
rejoin-split_from (suc fuel) max_chars stride [] h le enough = unfold rejoin split_from in refl
rejoin-split_from zero max_chars stride (x ∷ xs) h le enough = ground arith
rejoin-split_from (suc fuel) max_chars stride (x ∷ xs) h le enough =
    let text : Chars = x ∷ xs in
    elim (Bool-cases (leb (length text) max_chars)) [
      | inl e ↦
          rw (split_from-short fuel max_chars stride text (ground arith) (ground (arith, e)))
            (unfold rejoin in refl)
      | inr e ↦
          let long : max_chars < length text = ground (arith, e) in
          let shorter = length-drop stride text in
          let rest =
            split_from-solid fuel max_chars stride (drop stride text) (omega arith) (omega arith) in
          rw (split_from-long fuel max_chars stride text long) (
            rejoin-cons stride (take max_chars text)
              (split_from fuel max_chars stride (drop stride text)) rest
            ∙ rw (rejoin-split_from fuel max_chars stride (drop stride text) h le (omega arith))
                (rw (take-take stride max_chars text le) (take-append-drop stride text)))
    ]

-- If a chunk holds one character at least, the pieces of `_hard_split`, of each but the last only
-- the characters before the next one begins, give the text again.
pub rejoin-hard_split :
    (text : Chars) (max_chars overlap : ℕ)
    → 1 ≤ max_chars
    → rejoin (stride_of max_chars overlap) (hard_split text max_chars overlap) ≡ text
unfolding hard_split
rejoin-hard_split text max_chars overlap h =
    let (least, most) = stride_bounds max_chars overlap h in
    rejoin-split_from (length text) max_chars (stride_of max_chars overlap) text least most
      (omega arith)

pub split_from-All :
    (fuel max_chars stride : ℕ) (text : Chars)
    → All (λ c. length c ≤ max_chars) (split_from fuel max_chars stride text)
unfolding split_from
split_from-All zero max_chars stride text = tt
split_from-All (suc fuel) max_chars stride text = elim (Bool-cases (is_empty text)) [
  | inl e ↦ rw e tt
  | inr e ↦ elim (Bool-cases (leb (length text) max_chars)) [
    | inl f ↦ rw (e, f) (omega (arith, length-take max_chars text), tt)
    | inr f ↦
        rw (e, f)
          (
            omega (arith, length-take max_chars text),
            split_from-All fuel max_chars stride (drop stride text),
          )
  ]
]
