-- ===== src/Base/Strings.antt =====
-- More of Python's `str`: `endswith`, `removeprefix`, `replace`, `split`, `join` and slices.
use Prim.Native.Char.{Char, code}
use Prim.Native.Nat.{ℕ, zero, suc, ◌-◌}
use Prim.Native.String.{String, ◌++◌}
use mathlib.Core.Path.{◌≡◌, refl}
use mathlib.Core.Bool.{Bool, not, ◌&&◌, ◌||◌}
use mathlib.Core.List.{List, [], ◌∷◌}
use text.Mathlib.Text.{◌==◌}
use zen_claw.Base.Tests.{eqb, if◌then◌else◌}
use zen_claw.Base.Text.{is_space, starts_with}

-- `len(s)`
unfoldable pub size : String → ℕ
size String.[] = 0
size (String.◌∷◌ c s) = suc (size s)

-- `s[n:]`
unfoldable pub drop_chars : ℕ → String → String
drop_chars zero s = s
drop_chars (suc n) String.[] = ""
drop_chars (suc n) (String.◌∷◌ c s) = drop_chars n s

-- `s[:n]`
unfoldable pub take_chars : ℕ → String → String
take_chars zero s = ""
take_chars (suc n) String.[] = ""
take_chars (suc n) (String.◌∷◌ c s) = String.◌∷◌ c (take_chars n s)

-- `s.endswith(t)`
unfoldable pub ends_with : String → String → Bool
ends_with String.[] t = t == ""
ends_with (String.◌∷◌ c s) t = String.◌∷◌ c s == t || ends_with s t

-- `s.removeprefix(t)`
unfoldable pub remove_prefix : String → String → String
unfolding size drop_chars starts_with
remove_prefix s t = if starts_with s t then drop_chars (size t) s else s

replace_from : String → String → ℕ → String → String
replace_from old new k String.[] = ""
replace_from old new (suc k) (String.◌∷◌ c s) = replace_from old new k s
replace_from old new zero (String.◌∷◌ c s) =
    let here = starts_with (String.◌∷◌ c s) old in
    (if here then new else String.◌∷◌ c "")
    ++ replace_from old new (if here then size old - 1 else 0) s

-- `s.replace(old, new)` for a nonempty `old`
unfoldable pub replace : String → String → String → String
unfolding replace_from size starts_with
replace s old new = replace_from old new 0 s

words_from : String → String → List String
words_from w String.[] = if w == "" then [] else w ∷ []
words_from w (String.◌∷◌ c s) =
    let space = is_space (code c) in
    let rest = words_from (if space then "" else w ++ String.◌∷◌ c "") s in
    if space && not (w == "") then w ∷ rest else rest

-- `s.split()`
unfoldable pub words : String → List String
unfolding words_from is_space
words s = words_from "" s

-- `sep.join(parts)`
unfoldable pub join : String → List String → String
join sep [] = ""
join sep (p ∷ []) = p
join sep (p ∷ q ∷ rest) = p ++ sep ++ join sep (q ∷ rest)

-- `s.split(c, 1)[0]`
unfoldable pub before : Char → String → String
before d String.[] = ""
before d (String.◌∷◌ c s) = if eqb (code c) (code d) then "" else String.◌∷◌ c (before d s)

-- `a or b`
unfoldable pub or_text : String → String → String
or_text a b = if a == "" then b else a

replace_runs : replace "resource_scope_exec.dir" "exec." "sessions." ≡ "resource_scope_sessions.dir"
unfolding replace
replace_runs = refl

words_runs : join " " (words "  git   status\tx ") ≡ "git status x"
unfolding words join
words_runs = refl
