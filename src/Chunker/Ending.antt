-- ===== src/Chunker/Ending.antt =====
-- The loop of `_hard_split` of zen_claw/knowledge/chunker.py ends by its own tests.
use zen_claw.Base.{ℕ, zero, suc, ◌≤◌, ◌≡◌, refl, [], ◌∷◌, length, drop, arith, length-drop}
use zen_claw.Chunker.Pack.{Chars, stride_of, split_from, hard_split}

-- two counts of turns that are both enough give the same pieces
split_from_enough :
    (fuel fuel' max_chars stride : ℕ) (text : Chars)
    → 1 ≤ stride
    → length text ≤ fuel
    → length text ≤ fuel'
    → split_from fuel max_chars stride text ≡ split_from fuel' max_chars stride text
unfolding split_from
split_from_enough zero zero max_chars stride text s h h' = refl
split_from_enough zero (suc fuel') max_chars stride [] s h h' = refl
split_from_enough zero (suc fuel') max_chars stride (c ∷ text) s h h' = absurd (omega arith)
split_from_enough (suc fuel) zero max_chars stride [] s h h' = refl
split_from_enough (suc fuel) zero max_chars stride (c ∷ text) s h h' = absurd (omega arith)
split_from_enough (suc fuel) (suc fuel') max_chars stride [] s h h' = refl
split_from_enough (suc fuel) (suc fuel') max_chars stride (c ∷ text) s h h' = ground (
  arith,
  split_from_enough fuel fuel' max_chars stride (drop stride (c ∷ text)) s,
  length-drop stride (c ∷ text),
)

stride_pos : (max_chars overlap : ℕ) → 1 ≤ stride_of max_chars overlap
unfolding stride_of
stride_pos max_chars overlap = ground arith

-- The loop of `_hard_split` ends within as many turns as the text has characters, for every size and
-- overlap, an overlap of the whole piece included: any larger number of turns gives the same pieces.
pub hard_split-split_from :
    (text : Chars) (max_chars overlap turns : ℕ)
    → length text ≤ turns
    → split_from turns max_chars (stride_of max_chars overlap) text
      ≡ hard_split text max_chars overlap
unfolding hard_split
hard_split-split_from text max_chars overlap turns h =
    split_from_enough turns (length text) max_chars (stride_of max_chars overlap) text
      (stride_pos max_chars overlap) h (omega arith)
