-- ===== src/Base/Text.antt =====
-- Python's `str` as the code reads it: `strip`, `lower`, `upper`, prefixes and substrings. `lower` and `upper`
-- act on the ASCII letters; `is_space` is the whole table of `str.isspace`.
use Prim.Native.Char.{Char, char, code, IsScalar}
use Prim.Native.Nat.{ℕ, ◌+◌, ◌-◌, ◌<◌, compare, Ordering}
use Prim.Native.String.{String}
use Prim.Native.String.compare
use mathlib.Core.Path.{◌≡◌, refl}
use mathlib.Core.Bool.{Bool, true, false, ◌&&◌, ◌||◌}
use mathlib.Core.Logic.{dite}
use native.Mathlib.Omega.{arith}
use native.Mathlib.Decide.{dec_lt}
use text.Mathlib.Text.{◌==◌}
use text.Mathlib.TextEquality.{eq_iff, Char-path}
use mathlib.Core.Logic.{inl, inr}
use zen_claw.Base.Tests.{Bool-cases, leb, eqb, if◌then◌else◌}

unfoldable pub is_space : ℕ → Bool
is_space c =
    leb 9 c && leb c 13
    || leb 28 c && leb c 32
    || eqb c 133
    || eqb c 160
    || eqb c 5760
    || leb 8192 c && leb c 8202
    || eqb c 8232
    || eqb c 8233
    || eqb c 8239
    || eqb c 8287
    || eqb c 12288

unfoldable pub lstrip : String → String
lstrip String.[] = ""
lstrip (String.◌∷◌ c s) = if is_space (code c) then lstrip s else String.◌∷◌ c s

unfoldable pub rstrip : String → String
rstrip String.[] = ""
rstrip (String.◌∷◌ c s) =
    let rest = rstrip s in if is_space (code c) && (rest == "") then "" else String.◌∷◌ c rest

-- `s.strip()`
unfoldable pub strip : String → String
unfolding lstrip rstrip is_space
strip s = rstrip (lstrip s)

compare-lt : (n m : ℕ) → n < m → compare n m ≡ Ordering.lt
compare-lt n m h = ground arith

IsScalar_of_lt : (n : ℕ) → n < 55296 → IsScalar n
IsScalar_of_lt n h = rw (compare-lt n 55296 h) tt

unfoldable pub lower_char : Char → Char
unfolding dec_lt IsScalar_of_lt compare-lt
lower_char (char n p) =
    dite (dec_lt n 65) (λ _. char n p)
      (λ _.
        dite (dec_lt 90 n) (λ _. char n p)
          (λ h. char (n + 32) (IsScalar_of_lt (n + 32) (omega arith))))

-- `s.lower()`
unfoldable pub lower : String → String
unfolding lower_char
lower String.[] = ""
lower (String.◌∷◌ c s) = String.◌∷◌ (lower_char c) (lower s)

unfoldable pub upper_char : Char → Char
unfolding dec_lt IsScalar_of_lt compare-lt
upper_char (char n p) =
    dite (dec_lt n 97) (λ _. char n p)
      (λ _.
        dite (dec_lt 122 n) (λ _. char n p)
          (λ h. char (n - 32) (IsScalar_of_lt (n - 32) (omega arith))))

-- `s.upper()`
unfoldable pub upper : String → String
unfolding upper_char
upper String.[] = ""
upper (String.◌∷◌ c s) = String.◌∷◌ (upper_char c) (upper s)

-- `(s or "").strip().lower()`
unfoldable pub norm : String → String
unfolding strip lower lower_char
norm s = lower (strip s)

norm_runs : norm "  Exec_9 " ≡ "exec_9"
unfolding norm
norm_runs = refl

rstrip_idem : (s : String) → rstrip (rstrip s) ≡ rstrip s
unfolding rstrip
rstrip_idem String.[] = refl
rstrip_idem (String.◌∷◌ c s) =
    ground (arith, rstrip_idem s, eq_iff (rstrip s) "", eq_iff (rstrip (rstrip s)) "")

lstrip-rstrip-lstrip : (s : String) → lstrip (rstrip (lstrip s)) ≡ rstrip (lstrip s)
unfolding lstrip rstrip
lstrip-rstrip-lstrip String.[] = refl
lstrip-rstrip-lstrip (String.◌∷◌ c s) = ground (arith, lstrip-rstrip-lstrip s)

pub strip_idem : (s : String) → strip (strip s) ≡ strip s
unfolding strip
strip_idem s = rw (lstrip-rstrip-lstrip s) (rstrip_idem (lstrip s))

-- `s.startswith(t)`
unfoldable pub starts_with : String → String → Bool
starts_with s String.[] = true
starts_with String.[] (String.◌∷◌ d t) = false
starts_with (String.◌∷◌ c s) (String.◌∷◌ d t) = eqb (code c) (code d) && starts_with s t

-- `t in s`
unfoldable pub has_substring : String → String → Bool
has_substring String.[] t = starts_with "" t
has_substring (String.◌∷◌ c s) t = starts_with (String.◌∷◌ c s) t || has_substring s t

pub is_space-lower_char : (c : Char) → is_space (code (lower_char c)) ≡ is_space (code c)
unfolding is_space lower_char
is_space-lower_char (char n p) = ground arith

pub code-lower_char :
    (c : Char)
    → code (lower_char c) ≡ (if leb 65 (code c) && leb (code c) 90 then code c + 32 else code c)
unfolding lower_char
code-lower_char (char n p) = ground arith

pub lower_char_idem : (c : Char) → lower_char (lower_char c) ≡ lower_char c
lower_char_idem c =
    Char-path _ _ (ground (arith, code-lower_char c, code-lower_char (lower_char c)))

pub lower_idem : (s : String) → lower (lower s) ≡ lower s
unfolding lower
lower_idem String.[] = refl
lower_idem (String.◌∷◌ c s) = cc (lower_char_idem c, lower_idem s)

pub cons-nonempty : (c : Char) (s : String) → (String.◌∷◌ c s == "") ≡ false
cons-nonempty c s = rw (compare.cons-nil c s)

lower-empty : (s : String) → (lower s == "") ≡ (s == "")
unfolding lower
lower-empty String.[] = refl
lower-empty (String.◌∷◌ c s) = cc (cons-nonempty c s, cons-nonempty (lower_char c) (lower s))

pub lstrip-lower : (s : String) → lstrip (lower s) ≡ lower (lstrip s)
unfolding lstrip lower
lstrip-lower String.[] = refl
lstrip-lower (String.◌∷◌ c s) = ground (arith, is_space-lower_char c, lstrip-lower s)

rstrip-lower : (s : String) → rstrip (lower s) ≡ lower (rstrip s)
unfolding rstrip lower
rstrip-lower String.[] = refl
rstrip-lower (String.◌∷◌ c s) = elim (Bool-cases (is_space (code c) && (rstrip s == ""))) [
  | inl e ↦ rw (is_space-lower_char, rstrip-lower s, lower-empty, e)
  | inr e ↦ rw (is_space-lower_char, rstrip-lower s, lower-empty, e)
]

pub strip-lower : (s : String) → strip (lower s) ≡ lower (strip s)
unfolding strip
strip-lower s = rw lstrip-lower (rstrip-lower (lstrip s))

pub norm_idem : (s : String) → norm (norm s) ≡ norm s
unfolding norm
norm_idem s = rw (strip-lower, strip_idem, lower_idem)
