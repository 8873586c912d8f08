-- ===== src/Quota/Limits.antt =====
-- How much the sliding windows of zen_claw/agent/tools/quota.py let through.
use zen_claw.Base.{
  ℕ, ◌+◌, ◌≤◌, String, ◌≡◌, true, false, ◌&&◌, List, [], ◌∷◌, ◌++◌, arith, ◌==◌, eq_iff, leb,
  length, count, Bool-cases, inl, inr, if◌then◌else◌, count-append,
}
use zen_claw.Base.Dict.{get, put, get-put}
use mathlib.Core.Path.{subst, sym}
use text.Mathlib.TextPositions.{eq_refl}
use zen_claw.Quota.Window.{Windows, history_of, prune, check}
use zen_claw.Quota.Counting.{
  is_within, IsLimited, IsLimited-later, IsLimited-prune, IsLimited-append,
}

-- One call of `check`.
pub record Check : Type 0 where
  pub key : String
  pub limit : ℕ
  pub window_sec : ℕ
  pub now : ℕ

-- The times of the calls for `key` that are let through, in order.
unfoldable pub granted : Windows → String → List Check → List ℕ
granted w key [] = []
granted w key (c ∷ cs) =
    let (w', ok) = check w c.key c.limit c.window_sec c.now in
    let rest = granted w' key cs in if ok && c.key == key then c.now ∷ rest else rest

-- The clock of the calls runs from `lo` and never back; those for `key` agree on limit and window.
abbrev pub IsRun : String → ℕ → ℕ → ℕ → List Check → Type 0
IsRun key limit window_sec lo [] = Unit
IsRun key limit window_sec lo (c ∷ cs) =
    (lo ≤ c.now)
    × (c.key ≡ key → (c.limit ≡ limit) × (c.window_sec ≡ window_sec))
    × IsRun key limit window_sec c.now cs

history_of-put :
    (w : Windows) (k key : String) (history : List ℕ)
    → history_of (put w k history) key ≡ (if k == key then history else history_of w key)
unfolding history_of
history_of-put w k key history = rw get-put (ground arith)

pub check_other :
    (w : Windows) (k key : String) (limit window_sec now : ℕ)
    → (k == key) ≡ false
    → history_of (check w k limit window_sec now).0 key ≡ history_of w key
unfolding check
check_other w k key limit window_sec now h =
    let pruned = prune window_sec now (history_of w k) in
    ground (arith, h, history_of-put w k key pruned, history_of-put w k key (pruned ++ now ∷ []))

check_full :
    (w : Windows) (key : String) (limit window_sec now : ℕ)
    → leb limit (length (prune window_sec now (history_of w key))) ≡ true
    → ((check w key limit window_sec now).1 ≡ false)
      × (history_of (check w key limit window_sec now).0 key
          ≡ prune window_sec now (history_of w key))
unfolding check
check_full w key limit window_sec now e =
    ground
      (arith, e, eq_refl key, history_of-put w key key (prune window_sec now (history_of w key)))

check_room :
    (w : Windows) (key : String) (limit window_sec now : ℕ)
    → leb limit (length (prune window_sec now (history_of w key))) ≡ false
    → ((check w key limit window_sec now).1 ≡ true)
      × (history_of (check w key limit window_sec now).0 key
          ≡ prune window_sec now (history_of w key) ++ now ∷ [])
unfolding check
check_room w key limit window_sec now e = ground (
  arith,
  e,
  eq_refl key,
  history_of-put w key key (prune window_sec now (history_of w key) ++ now ∷ []),
)

-- the calls `cs` stay within the limit, whatever was let through before them
abbrev IsBounded : String → ℕ → ℕ → ℕ → List Check → Type 0
IsBounded key limit window_sec lo cs =
    (w : Windows) (past : List ℕ)
    → IsLimited window_sec limit lo past (history_of w key)
    → (end : ℕ)
    → count (is_within window_sec end) past + count (is_within window_sec end) (granted w key cs)
      ≤ limit

IsBounded-here :
    (key : String) (limit window_sec lo now : ℕ) (cs : List Check)
    → lo ≤ now
    → IsBounded key limit window_sec now cs
    → IsBounded key limit window_sec lo
        (record { key = key; limit = limit; window_sec = window_sec; now = now } ∷ cs)
unfolding granted
IsBounded-here key limit window_sec lo now cs later ih w past inv end =
    let pruned = IsLimited-prune window_sec limit lo now past (history_of w key) later inv in
    let w' = (check w key limit window_sec now).0 in
    elim (Bool-cases (leb limit (length (prune window_sec now (history_of w key))))) [
      | inl e ↦
          let (refused, next) = check_full w key limit window_sec now e in
          rw refused (ground (arith, ih w' past (rw next pruned) end))
      | inr e ↦
          let (let_through, next) = check_room w key limit window_sec now e in
          let added =
            IsLimited-append window_sec limit now past (prune window_sec now (history_of w key))
              (ground arith) pruned in
          let rest = ih w' (past ++ now ∷ []) (rw next added) end in
          let all = count-append (is_within window_sec end) past (now ∷ []) in
          rw (let_through, eq_refl key) (unfold count in ground (arith, rest, all))
    ]

IsBounded-other :
    (key : String) (limit window_sec lo : ℕ) (c : Check) (cs : List Check)
    → (c.key == key) ≡ false
    → lo ≤ c.now
    → IsBounded key limit window_sec c.now cs
    → IsBounded key limit window_sec lo (c ∷ cs)
unfolding granted
IsBounded-other key limit window_sec lo c cs other later ih w past inv end =
    let same = check_other w c.key key c.limit c.window_sec c.now other in
    let rest =
      ih (check w c.key c.limit c.window_sec c.now).0 past
        (rw same (IsLimited-later window_sec limit lo c.now past (history_of w key) later inv))
        end in
    rw other (ground (arith, rest))

run-IsBounded :
    (key : String) (limit window_sec lo : ℕ) (cs : List Check)
    → IsRun key limit window_sec lo cs
    → IsBounded key limit window_sec lo cs
unfolding granted count
run-IsBounded key limit window_sec lo [] h = λ w past inv end. omega (arith, inv.bounded end)
run-IsBounded key limit window_sec lo (c ∷ cs) h = elim (Bool-cases (c.key == key)) [
  | inl e ↦
      let same : c.key ≡ key = ground (arith, e, eq_iff c.key key) in
      let (limits, windows) = h.1 same in
      let there =
        IsBounded-here key limit window_sec lo c.now cs h.0
          (run-IsBounded key limit window_sec c.now cs h.2) in
      subst (λ d. IsBounded key limit window_sec lo (d ∷ cs))
        (λ i. record {
          key = sym same i;
          limit = sym limits i;
          window_sec = sym windows i;
          now = c.now;
        })
        there
  | inr e ↦
      IsBounded-other key limit window_sec lo c cs e h.0
        (run-IsBounded key limit window_sec c.now cs h.2)
]

-- Whatever calls come for other keys, if the clock never runs back and the calls for one key agree
-- on limit and window, then in every window of that length, wherever it ends, at most `limit` calls
-- for the key are let through.
pub granted-IsLimited :
    (key : String) (limit window_sec : ℕ) (cs : List Check)
    → IsRun key limit window_sec 0 cs
    → (end : ℕ) → count (is_within window_sec end) (granted [] key cs) ≤ limit
granted-IsLimited key limit window_sec cs h end =
    let start : IsLimited window_sec limit 0 [] [] = record {
      kept = λ end e. omega arith;
      bounded = λ end. unfold count in omega arith;
    } in
    let bound =
      run-IsBounded key limit window_sec 0 cs h [] [] (unfold history_of get in start) end in
    unfold count in omega (arith, bound)
