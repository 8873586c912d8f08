-- ===== src/Chunker/Bounds.antt =====
-- How long the chunks of zen_claw/knowledge/chunker.py are.
use zen_claw.Base.{
  ℕ, ◌+◌, ◌≤◌, ◌≡◌, refl, true, false, not, ◌&&◌, List, [], ◌∷◌, arith, ltb, leb, length,
  length-append, keep, All, All-append, All-map_of, Bool-cases, inl, inr, ◌⊎◌,
}
use zen_claw.Chunker.Pack.{
  Chars, ChunkConfig, Packing, is_empty, strip, stride_of, split_from, hard_split, join_lines,
  add_chunk, tail_of, pack_long, pack_next, pack_more, pack, pack_all, nothing_packed, packed,
  chunk,
}
use zen_claw.Chunker.Pieces.{split_from-All, is_empty-length}
use zen_claw.Chunker.Lengths.{
  length-strip, length-tail_of, length-join_lines_snoc, All-keep, length-join_lines_empty,
}

-- the longest a chunk can be: an overlap, a line break and a unit
abbrev pub longest : ChunkConfig → ℕ
longest cfg = cfg.max_chars + cfg.overlap_chars + 1

abbrev pub IsShort : ChunkConfig → Chars → Type 0
IsShort cfg c = length c ≤ longest cfg

-- between two units: what is packed is short, and the running length is that of the joined lines
record IsPacked (cfg : ChunkConfig) (p : Packing) : Type 0 where
  short : All (IsShort cfg) p.chunks
  counted : p.current_len ≡ length (join_lines p.current)
  fits : length (join_lines p.current) ≤ longest cfg

All-add_chunk :
    (cfg : ChunkConfig) (chunks : List Chars) (c : Chars)
    → All (IsShort cfg) chunks
    → IsShort cfg c
    → All (IsShort cfg) (add_chunk cfg chunks c)
unfolding add_chunk
All-add_chunk cfg chunks c h short = elim (Bool-cases (leb cfg.min_chars (length c))) [
  | inl e ↦ rw e (All-append (IsShort cfg) chunks (c ∷ []) h (short, tt))
  | inr e ↦ rw e h
]

merged-IsShort :
    (cfg : ChunkConfig) (p : Packing) → IsPacked cfg p → IsShort cfg (strip (join_lines p.current))
merged-IsShort cfg p h = omega (arith, h.fits, length-strip (join_lines p.current))

pieces-IsShort :
    (cfg : ChunkConfig) (unit : Chars)
    → All (IsShort cfg) (
        keep
          (λ part. leb cfg.min_chars (length part))
          (hard_split unit cfg.max_chars cfg.overlap_chars))
unfolding hard_split
pieces-IsShort cfg unit =
    let pieces =
      split_from (length unit) cfg.max_chars (stride_of cfg.max_chars cfg.overlap_chars) unit in
    All-keep (IsShort cfg) (λ part. leb cfg.min_chars (length part)) pieces
      (All-map_of (λ c. length c ≤ cfg.max_chars) (IsShort cfg) pieces (λ c le. omega arith)
        (split_from-All (length unit) cfg.max_chars (stride_of cfg.max_chars cfg.overlap_chars)
          unit))

pack_long-IsPacked :
    (cfg : ChunkConfig) (p : Packing) (unit : Chars)
    → IsPacked cfg p
    → IsPacked cfg (pack_long cfg p unit)
unfolding pack_long
pack_long-IsPacked cfg p unit h =
    let pieces =
      keep (λ part. leb cfg.min_chars (length part))
        (hard_split unit cfg.max_chars cfg.overlap_chars) in
    let fine = pieces-IsShort cfg unit in
    elim (Bool-cases (is_empty p.current)) [
      | inl e ↦ rw e (record {
        short = All-append (IsShort cfg) p.chunks pieces h.short fine;
        counted = h.counted;
        fits = h.fits;
      })
      | inr e ↦ rw e (record {
        short =
            All-append (IsShort cfg) (add_chunk cfg p.chunks (strip (join_lines p.current))) pieces
              (All-add_chunk cfg p.chunks (strip (join_lines p.current)) h.short
                (merged-IsShort cfg p h))
              fine;
        counted = unfold join_lines in refl;
        fits = unfold join_lines in omega arith;
      })
    ]

pack_next-IsPacked :
    (cfg : ChunkConfig) (p : Packing) (unit : Chars)
    → length unit ≤ cfg.max_chars
    → IsPacked cfg p
    → IsPacked cfg (pack_next cfg p unit)
unfolding pack_next join_lines
pack_next-IsPacked cfg p unit le h =
    let merged = strip (join_lines p.current) in
    let overlap = tail_of cfg.overlap_chars merged in
    let short = All-add_chunk cfg p.chunks merged h.short (merged-IsShort cfg p h) in
    let tail = length-tail_of cfg.overlap_chars merged in
    let joined = length-append overlap (10 ∷ unit) in
    elim (Bool-cases (is_empty overlap)) [
      | inl e ↦ rw e (record {
        short = short;
        counted = ground (arith, e, is_empty-length overlap);
        fits = omega (arith, le);
      })
      | inr e ↦ rw e (record {
        short = short;
        counted = omega (arith, joined);
        fits = omega (arith, joined, tail, le);
      })
    ]

pack_more-IsPacked :
    (cfg : ChunkConfig) (p : Packing) (unit : Chars)
    → length unit ≤ cfg.max_chars
    → (not (is_empty p.current) && ltb cfg.max_chars (p.current_len + 1 + length unit)) ≡ false
    → IsPacked cfg p
    → IsPacked cfg (pack_more p unit)
unfolding pack_more
pack_more-IsPacked cfg p unit le room h =
    let joined = length-join_lines_snoc p.current unit in
    let longer = length-append p.current (unit ∷ []) in
    let empty = is_empty-length p.current in
    record {
      short = h.short;
      counted = ground (arith, h.counted, joined, longer, empty);
      fits = ground (arith, h.counted, joined, le, room, length-join_lines_empty p.current);
    }

pack-IsPacked :
    (cfg : ChunkConfig) (p : Packing) (unit : Chars)
    → IsPacked cfg p
    → IsPacked cfg (pack cfg p unit)
unfolding pack
pack-IsPacked cfg p unit h = elim (Bool-cases (ltb cfg.max_chars (length unit))) [
  | inl e ↦ rw e (pack_long-IsPacked cfg p unit h)
  | inr e ↦
      elim (Bool-cases
        (not (is_empty p.current) && ltb cfg.max_chars (p.current_len + 1 + length unit))) [
          | inl f ↦ rw (e, f) (pack_next-IsPacked cfg p unit (ground (arith, e)) h)
          | inr f ↦ rw (e, f) (pack_more-IsPacked cfg p unit (ground (arith, e)) f h)
        ]
]

pack_all-IsPacked :
    (cfg : ChunkConfig) (p : Packing) (units : List Chars)
    → IsPacked cfg p
    → IsPacked cfg (pack_all cfg p units)
unfolding pack_all
pack_all-IsPacked cfg p [] h = h
pack_all-IsPacked cfg p (unit ∷ units) h =
    pack_all-IsPacked cfg (pack cfg p unit) units (pack-IsPacked cfg p unit h)

packed-IsShort : (cfg : ChunkConfig) (units : List Chars) → All (IsShort cfg) (packed cfg units)
unfolding packed
packed-IsShort cfg units =
    let start : IsPacked cfg nothing_packed = record {
      short = tt;
      counted = unfold join_lines in refl;
      fits = unfold join_lines in omega arith;
    } in
    let p = pack_all cfg nothing_packed units in
    let h = pack_all-IsPacked cfg nothing_packed units start in
    elim (Bool-cases (is_empty p.current)) [
      | inl e ↦ rw e h.short
      | inr e ↦ rw e (
          All-add_chunk cfg p.chunks (strip (join_lines p.current)) h.short
            (merged-IsShort cfg p h))
    ]

-- However a text is cut into units, either each chunk is no longer than `max_chars`, a line break
-- and the overlap together, or nothing is long enough for a chunk and the text without the white
-- space around it is the only one.
pub chunk-IsShort :
    (cfg : ChunkConfig) (text : Chars) (units : List Chars)
    → All (IsShort cfg) (chunk cfg text units)
      ⊎ ((is_empty (packed cfg units) ≡ true) × (chunk cfg text units ≡ strip text ∷ []))
unfolding chunk
chunk-IsShort cfg text units = elim (Bool-cases (is_empty (strip text))) [
  | inl e ↦ rw e (inl tt)
  | inr e ↦ elim (Bool-cases (is_empty (packed cfg units))) [
    | inl f ↦ rw (e, f) (inr (refl, refl))
    | inr f ↦ rw (e, f) (inl (packed-IsShort cfg units))
  ]
]
