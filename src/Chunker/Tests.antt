-- ===== src/Chunker/Tests.antt =====
-- Small texts.
use zen_claw.Base.{arith, ◌≡◌, refl, true, [], ◌∷◌, List, All, keep, length, map, ◌⊎◌}
use zen_claw.Base.Text.{is_space}
use zen_claw.Chunker.Pack.{
  ChunkConfig, Chars, lstrip, rstrip, strip, stride_of, split_from, hard_split, join_lines,
  add_chunk, tail_of, pack_long, pack_next, pack_more, pack, pack_all, packed, chunk, is_empty,
}
use zen_claw.Chunker.Pieces.{rejoin, rejoin-hard_split}
use zen_claw.Chunker.Ending.{hard_split-split_from}
use zen_claw.Chunker.Bounds.{IsShort, chunk-IsShort}

abbrev cfg : ChunkConfig
cfg = record { max_chars = 6; overlap_chars = 2; min_chars = 2 }

program : Unit {0}
unfolding keep is_space lstrip rstrip strip stride_of split_from hard_split join_lines add_chunk
    tail_of pack_long pack_next pack_more pack pack_all packed chunk rejoin
program = tt

abbrev letters : Chars
letters = 65 ∷ 66 ∷ 67 ∷ 68 ∷ 69 ∷ 70 ∷ 71 ∷ 72 ∷ []

pieces_run :
    hard_split letters 6 2 ≡ (65 ∷ 66 ∷ 67 ∷ 68 ∷ 69 ∷ 70 ∷ []) ∷ (69 ∷ 70 ∷ 71 ∷ 72 ∷ []) ∷ []
unfolding program
pieces_run = refl

rejoin-hard_split_example : rejoin (stride_of 6 2) (hard_split letters 6 2) ≡ letters
rejoin-hard_split_example = rejoin-hard_split letters 6 2 (omega arith)

abbrev words : List Chars
words = (65 ∷ 65 ∷ 65 ∷ 65 ∷ 65 ∷ 65 ∷ []) ∷ (66 ∷ 66 ∷ 66 ∷ 66 ∷ 66 ∷ 66 ∷ []) ∷ []

-- the second chunk is longer than six characters
chunks_lengths : map length (chunk cfg letters words) ≡ 6 ∷ 9 ∷ []
unfolding program
chunks_lengths = refl

chunk-IsShort_example :
    All (IsShort cfg) (chunk cfg letters words)
    ⊎ ((is_empty (packed cfg words) ≡ true) × (chunk cfg letters words ≡ strip letters ∷ []))
chunk-IsShort_example = chunk-IsShort cfg letters words

hard_split-split_from_example : split_from 40 6 (stride_of 6 2) letters ≡ hard_split letters 6 2
hard_split-split_from_example = hard_split-split_from letters 6 2 40 (omega arith)
