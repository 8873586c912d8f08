-- ===== src/Base/Sets.antt =====
-- Python's `set` of texts, as a list with no text twice.
use mathlib.Core.Path.{◌≡◌, refl}
use mathlib.Core.List.{List, [], ◌∷◌, ◌++◌}
use mathlib.Core.Bool.{Bool, false, ◌||◌}
use native.Mathlib.Omega.{arith}
use Prim.Native.String.{String, compare}
use Prim.Native.Nat.{Ordering}
use text.Mathlib.Text.{◌==◌}
use text.Mathlib.TextEquality.{eq_iff}
use zen_claw.Base.Tests.{if◌then◌else◌}

-- `x in xs`
unfoldable pub contains : String → List String → Bool
contains x [] = false
contains x (y ∷ ys) = x == y || contains x ys

-- `xs.add(x)`
unfoldable pub add : String → List String → List String
add x xs = if contains x xs then xs else xs ++ x ∷ []

-- `for x in names: if x: out.add(x)`
unfoldable pub add_nonempty : List String → List String → List String
unfolding add
add_nonempty out [] = out
add_nonempty out (x ∷ xs) = add_nonempty (if x == "" then out else add x out) xs

pub contains-append :
    (x y : String) (xs : List String) → contains x (xs ++ y ∷ []) ≡ (contains x xs || x == y)
unfolding contains
contains-append x y [] = ground arith
contains-append x y (z ∷ zs) = ground (arith, contains-append x y zs)

pub contains-add :
    (x y : String) (xs : List String) → contains x (add y xs) ≡ (contains x xs || x == y)
unfolding add
contains-add x y xs = ground (arith, contains-append x y xs, eq_iff x y)

-- the texts collected are those that were there and the nonempty ones of the list
pub contains-add_nonempty :
    (x : String) (out xs : List String)
    → (x == "") ≡ false
    → contains x (add_nonempty out xs) ≡ (contains x out || contains x xs)
unfolding add_nonempty contains
contains-add_nonempty x out [] h = ground arith
contains-add_nonempty x out (y ∷ ys) h = ground (
  arith,
  eq_iff x y,
  eq_iff y "",
  eq_iff x "",
  contains-add x y out,
  contains-add_nonempty x (if y == "" then out else add y out) ys,
)

pub add_nonempty-append :
    (out xs ys : List String) → add_nonempty out (xs ++ ys) ≡ add_nonempty (add_nonempty out xs) ys
unfolding add_nonempty
add_nonempty-append out [] ys = refl
add_nonempty-append out (x ∷ xs) ys = add_nonempty-append (if x == "" then out else add x out) xs ys

abbrev insert_sorted : String → List String → List String
insert_sorted x [] = x ∷ []
insert_sorted x (y ∷ ys) = elim (compare x y) [
  | Ordering.gt ↦ y ∷ insert_sorted x ys
  | _ ↦ x ∷ y ∷ ys
]

-- `sorted(xs)`
unfoldable pub sorted : List String → List String
sorted [] = []
sorted (x ∷ xs) = insert_sorted x (sorted xs)
