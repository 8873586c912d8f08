-- ===== src/Chunker/Lengths.antt =====
-- Lengths of what zen_claw/knowledge/chunker.py makes of texts.
use zen_claw.Base.{
  ℕ, ◌+◌, ◌-◌, ◌≤◌, ◌≡◌, refl, Bool, true, List, [], ◌∷◌, ◌++◌, arith, length, length-append,
  length-drop, keep, All, Bool-cases, inl, inr, if◌then◌else◌,
}
use zen_claw.Chunker.Pack.{Chars, is_empty, lstrip, rstrip, strip, join_lines, tail_of}

length-lstrip : (s : Chars) → length (lstrip s) ≤ length s
unfolding lstrip
length-lstrip [] = omega arith
length-lstrip (c ∷ s) = ground (arith, length-lstrip s)

length-rstrip : (s : Chars) → length (rstrip s) ≤ length s
unfolding rstrip
length-rstrip [] = omega arith
length-rstrip (c ∷ s) = ground (arith, length-rstrip s)

pub length-strip : (s : Chars) → length (strip s) ≤ length s
unfolding strip
length-strip s = omega (arith, length-rstrip (lstrip s), length-lstrip s)

pub length-tail_of : (n : ℕ) (s : Chars) → length (tail_of n s) ≤ n
unfolding tail_of
length-tail_of n s = ground (arith, length-drop (length s - n) s)

pub length-join_lines_snoc :
    (ls : List Chars) (l : Chars)
    → length (join_lines (ls ++ l ∷ []))
      ≡ length (join_lines ls) + (length l + (if is_empty ls then 0 else 1))
unfolding join_lines
length-join_lines_snoc [] l = omega arith
length-join_lines_snoc (k ∷ []) l = ground (arith, length-append k (10 ∷ l))
length-join_lines_snoc (k ∷ m ∷ ls) l = ground (
  arith,
  length-join_lines_snoc (m ∷ ls) l,
  length-append k (10 ∷ join_lines (m ∷ ls ++ l ∷ [])),
  length-append k (10 ∷ join_lines (m ∷ ls)),
)

pub All-keep :
    (P : Chars → Type 0) (p : Chars → Bool) (xs : List Chars) → All P xs → All P (keep p xs)
unfolding keep
All-keep P p [] h = tt
All-keep P p (x ∷ xs) h = elim (Bool-cases (p x)) [
  | inl e ↦ rw e (h.0, All-keep P p xs h.1)
  | inr e ↦ rw e (All-keep P p xs h.1)
]

pub length-join_lines_empty : (ls : List Chars) → is_empty ls ≡ true → length (join_lines ls) ≡ 0
unfolding join_lines
length-join_lines_empty [] h = refl
length-join_lines_empty (l ∷ ls) h = ground arith
