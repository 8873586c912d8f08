-- ===== src/Quota/Counting.antt =====
-- How many times of a list fall in a window: counts for the windows of zen_claw/agent/tools/quota.py.
use zen_claw.Base.{
  ℕ, ◌+◌, ◌≤◌, ◌<◌, ◌≡◌, refl, Bool, ◌&&◌, List, [], ◌∷◌, ◌++◌, arith, leb, length, keep, count,
  Bool-cases, inl, inr, if◌then◌else◌, count-append, count-le-length,
}
use zen_claw.Quota.Window.{is_recent, prune}

-- `end - window_sec < t <= end`
unfoldable pub is_within : ℕ → ℕ → ℕ → Bool
is_within window_sec end t = is_recent window_sec end t && leb t end

-- what is known between two calls: the times let through so far, and the window that is kept
pub record IsLimited (window_sec limit lo : ℕ) (past history : List ℕ) : Type 0 where
  pub kept :
      (end : ℕ)
      → lo ≤ end
      → count (is_recent window_sec end) past ≤ count (is_recent window_sec end) history
  pub bounded : (end : ℕ) → count (is_within window_sec end) past ≤ limit

count-is_within :
    (window_sec end : ℕ) (xs : List ℕ)
    → count (is_within window_sec end) xs ≤ count (is_recent window_sec end) xs
unfolding count is_within
count-is_within window_sec end [] = omega arith
count-is_within window_sec end (x ∷ xs) = ground (arith, count-is_within window_sec end xs)

count-prune :
    (window_sec now end : ℕ) (xs : List ℕ)
    → now ≤ end
    → count (is_recent window_sec end) (prune window_sec now xs)
      ≡ count (is_recent window_sec end) xs
unfolding count prune keep is_recent
count-prune window_sec now end [] h = refl
count-prune window_sec now end (x ∷ xs) h = ground (arith, count-prune window_sec now end xs h)

pub IsLimited-later :
    (window_sec limit lo now : ℕ) (past history : List ℕ)
    → lo ≤ now
    → IsLimited window_sec limit lo past history
    → IsLimited window_sec limit now past history
IsLimited-later window_sec limit lo now past history h inv = record {
  kept = λ end e. inv.kept end (omega arith);
  bounded = inv.bounded;
}

pub IsLimited-prune :
    (window_sec limit lo now : ℕ) (past history : List ℕ)
    → lo ≤ now
    → IsLimited window_sec limit lo past history
    → IsLimited window_sec limit now past (prune window_sec now history)
IsLimited-prune window_sec limit lo now past history h inv = record {
  kept =
      λ end e. omega (arith, inv.kept end (omega arith), count-prune window_sec now end history e);
  bounded = inv.bounded;
}

count_one : (p : ℕ → Bool) (x : ℕ) → count p (x ∷ []) ≡ (if p x then 1 else 0)
unfolding count
count_one p x = ground arith

bound_after :
    (window_sec limit now end : ℕ) (past history : List ℕ)
    → length history < limit
    → IsLimited window_sec limit now past history
    → count (is_within window_sec end) past + count (is_within window_sec end) (now ∷ []) ≤ limit
bound_after window_sec limit now end past history room inv = elim (Bool-cases (leb now end)) [
  | inl e ↦ ground (
    arith,
    count_one (is_within window_sec end) now,
    inv.kept end (ground arith),
    count-is_within window_sec end past,
    count-le-length (is_recent window_sec end) history,
  )
  | inr e ↦
      unfold is_within in ground (arith, inv.bounded end, count_one (is_within window_sec end) now)
]

pub IsLimited-append :
    (window_sec limit now : ℕ) (past history : List ℕ)
    → length history < limit
    → IsLimited window_sec limit now past history
    → IsLimited window_sec limit now (past ++ now ∷ []) (history ++ now ∷ [])
IsLimited-append window_sec limit now past history room inv = record {
  kept = λ end e. ground (
    arith,
    inv.kept end e,
    count-append (is_recent window_sec end) past (now ∷ []),
    count-append (is_recent window_sec end) history (now ∷ []),
  );
  bounded = λ end.
      rw (count-append (is_within window_sec end))
        (bound_after window_sec limit now end past history room inv);
}
