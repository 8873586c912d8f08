-- ===== src/Chunker/Pack.antt =====
-- `_hard_split`, and the packing of units into chunks in `TextChunker.chunk`, of
-- zen_claw/knowledge/chunker.py. A text is the list of its code points. The units, which regular
-- expressions cut out of the text, are an argument. Sizes are natural numbers.
use zen_claw.Base.{
  ℕ, zero, suc, ◌+◌, ◌-◌, Bool, true, false, not, ◌&&◌, List, [], ◌∷◌, ◌++◌, ltb, leb, eqb, length,
  take, drop, keep, if◌then◌else◌,
}
use zen_claw.Base.Text.{is_space}

abbrev pub Chars : Type 0
Chars = List ℕ

pub record ChunkConfig : Type 0 where
  pub max_chars : ℕ
  pub overlap_chars : ℕ
  pub min_chars : ℕ

abbrev pub is_empty {ℓ} : {A : Type ℓ} → List A → Bool
is_empty [] = true
is_empty (x ∷ xs) = false

unfoldable pub lstrip : Chars → Chars
lstrip [] = []
lstrip (c ∷ s) = if is_space c then lstrip s else c ∷ s

unfoldable pub rstrip : Chars → Chars
rstrip [] = []
rstrip (c ∷ s) = let rest = rstrip s in if is_space c && is_empty rest then [] else c ∷ rest

-- `s.strip()`
unfoldable pub strip : Chars → Chars
strip s = rstrip (lstrip s)

-- `max(1, max_chars - max(0, overlap))`
unfoldable pub stride_of : ℕ → ℕ → ℕ
stride_of max_chars overlap = if leb 1 (max_chars - overlap) then max_chars - overlap else 1

-- The loop of `_hard_split` on the text from `start` on. Each turn drops a character at least, so that
-- as much fuel as there are characters is enough.
unfoldable pub split_from : ℕ → ℕ → ℕ → Chars → List Chars
split_from zero max_chars stride text = []
split_from (suc fuel) max_chars stride text =
    let rest = split_from fuel max_chars stride (drop stride text) in
    if is_empty text
    then []
    else if leb (length text) max_chars
    then take max_chars text ∷ []
    else take max_chars text ∷ rest

unfoldable pub hard_split : Chars → ℕ → ℕ → List Chars
hard_split text max_chars overlap =
    split_from (length text) max_chars (stride_of max_chars overlap) text

-- `"\n".join(lines)`
unfoldable pub join_lines : List Chars → Chars
join_lines [] = []
join_lines (l ∷ ls) = let rest = join_lines ls in if is_empty ls then l else l ++ 10 ∷ rest

-- The variables of the loop over the units.
pub record Packing : Type 0 where
  pub chunks : List Chars
  pub current : List Chars
  pub current_len : ℕ

unfoldable pub add_chunk : ChunkConfig → List Chars → Chars → List Chars
add_chunk cfg chunks merged =
    if leb cfg.min_chars (length merged) then chunks ++ merged ∷ [] else chunks

-- `merged[-cfg.overlap_chars:] if cfg.overlap_chars else ""`
unfoldable pub tail_of : ℕ → Chars → Chars
tail_of overlap_chars merged =
    if eqb overlap_chars 0 then [] else drop (length merged - overlap_chars) merged

-- a unit that is too long by itself
unfoldable pub pack_long : ChunkConfig → Packing → Chars → Packing
pack_long cfg p unit =
    let pieces =
      keep (λ part. leb cfg.min_chars (length part))
        (hard_split unit cfg.max_chars cfg.overlap_chars) in
    if is_empty p.current then record p { chunks = p.chunks ++ pieces } else record {
      chunks = add_chunk cfg p.chunks (strip (join_lines p.current)) ++ pieces;
      current = [];
      current_len = 0;
    }

-- a unit for which the current chunk has no room
unfoldable pub pack_next : ChunkConfig → Packing → Chars → Packing
pack_next cfg p unit =
    let merged = strip (join_lines p.current) in
    let overlap = tail_of cfg.overlap_chars merged in
    record {
      chunks = add_chunk cfg p.chunks merged;
      current = if is_empty overlap then unit ∷ [] else overlap ∷ unit ∷ [];
      current_len = length overlap + length unit + (if is_empty overlap then 0 else 1);
    }

unfoldable pub pack_more : Packing → Chars → Packing
pack_more p unit = record p {
  current = p.current ++ unit ∷ [];
  current_len =
      p.current_len + (length unit + (if ltb 1 (length (p.current ++ unit ∷ [])) then 1 else 0));
}

unfoldable pub pack : ChunkConfig → Packing → Chars → Packing
pack cfg p unit =
    if ltb cfg.max_chars (length unit)
    then pack_long cfg p unit
    else if not (is_empty p.current) && ltb cfg.max_chars (p.current_len + 1 + length unit)
    then pack_next cfg p unit
    else pack_more p unit

unfoldable pub pack_all : ChunkConfig → Packing → List Chars → Packing
pack_all cfg p [] = p
pack_all cfg p (unit ∷ units) = pack_all cfg (pack cfg p unit) units

abbrev pub nothing_packed : Packing
nothing_packed = record { chunks = []; current = []; current_len = 0 }

unfoldable pub packed : ChunkConfig → List Chars → List Chars
packed cfg units =
    let p = pack_all cfg nothing_packed units in
    if is_empty p.current then p.chunks else add_chunk cfg p.chunks (strip (join_lines p.current))

-- `chunk`, of a text and the units that it is cut into
unfoldable pub chunk : ChunkConfig → Chars → List Chars → List Chars
chunk cfg text units =
    if is_empty (strip text)
    then []
    else let chunks = packed cfg units in if is_empty chunks then strip text ∷ [] else chunks
