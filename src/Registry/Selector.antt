-- ===== src/Registry/Selector.antt =====
-- `bm25_select` of zen_claw/agent/tools/semantic_selector.py. The scores are floating-point numbers,
-- of which only the order is used: they are an argument, which gives the score of a tool by its index.
use zen_claw.Base.{
  ℕ, zero, suc, String, Bool, false, ◌&&◌, ◌||◌, not, List, [], ◌∷◌, eqb, leb, length, take,
  if◌then◌else◌,
}
use zen_claw.Base.Text.{lower_char}
use Prim.Native.Char.{code}
use Prim.Native.String.{String as Text}

-- `[t for t in re.split(r"[^a-z0-9]+", text.lower()) if t]` is not empty
unfoldable pub has_token : String → Bool
has_token Text.[] = false
has_token (Text.◌∷◌ c s) =
    let n = code (lower_char c) in leb 48 n && leb n 57 || (leb 97 n && leb n 122) || has_token s

unfoldable pub insert_ranked : (ℕ → ℕ) → ℕ → List ℕ → List ℕ
insert_ranked scores i [] = i ∷ []
insert_ranked scores i (j ∷ js) =
    let later = insert_ranked scores i js in
    if leb (scores j) (scores i) then i ∷ j ∷ js else j ∷ later

-- `sorted(range(i, i + n), key=lambda i: scores[i], reverse=True)`
unfoldable pub ranked : (ℕ → ℕ) → ℕ → ℕ → List ℕ
ranked scores i zero = []
ranked scores i (suc n) = insert_ranked scores i (ranked scores (suc i) n)

-- `i in top_indices`
unfoldable pub is_top : ℕ → List ℕ → Bool
is_top i [] = false
is_top i (j ∷ js) = eqb i j || is_top i js

module _ {ℓ} {A : Type ℓ} where
  -- `[t for i, t in enumerate(tools, i) if i in top_indices]`
  unfoldable pub chosen : List ℕ → ℕ → List A → List A
  chosen top i [] = []
  chosen top i (t ∷ ts) =
      let rest = chosen top (suc i) ts in if is_top i top then t ∷ rest else rest

  -- `bm25_select`
  unfoldable pub bm25_select : (ℕ → ℕ) → List A → String → ℕ → List A
  bm25_select scores tools query top_k =
      if leb (length tools) top_k
      then tools
      else if not (has_token query)
      then take top_k tools
      else chosen (take top_k (ranked scores 0 (length tools))) 0 tools
