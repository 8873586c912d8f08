-- ===== src/Agents/Names.antt =====
-- `normalize_agent_id` of zen_claw/agent/pool.py.
use Prim.Native.Char.{Char, code}
use Prim.Native.String.{String}
use zen_claw.Base.{
  ◌≡◌, refl, Bool, true, false, ◌&&◌, ◌==◌, eqb, if◌then◌else◌, arith, inl, inr, Bool-cases, sym,
  ◌∙◌, and-true,
}
use zen_claw.Base.Text.{
  norm, strip, lower, lower_char, is_space, norm_idem, cons-nonempty, lstrip, rstrip,
  code-lower_char,
}
use zen_claw.Base.Strings.{or_text}

-- `s.startswith("_")`
unfoldable pub starts_low : String → Bool
starts_low String.[] = false
starts_low (String.◌∷◌ c s) = eqb (code c) 95

-- `re.sub(r"_+", "_", s)`
unfoldable pub squeeze : String → String
squeeze String.[] = ""
squeeze (String.◌∷◌ c s) =
    let rest = squeeze s in if eqb (code c) 95 && starts_low rest then rest else String.◌∷◌ c rest

unfoldable pub normalize_agent_id : String → String
normalize_agent_id agent_id = or_text (squeeze (norm agent_id)) "default"

squeeze_runs : normalize_agent_id " Sales__Team___7 " ≡ "sales_team_7"
unfolding normalize_agent_id squeeze starts_low norm strip lower lower_char or_text
squeeze_runs = refl

starts_low-squeeze : (s : String) → starts_low (squeeze s) ≡ starts_low s
unfolding squeeze starts_low
starts_low-squeeze String.[] = refl
starts_low-squeeze (String.◌∷◌ c s) = ground arith

squeeze_idem : (s : String) → squeeze (squeeze s) ≡ squeeze s
unfolding squeeze
squeeze_idem String.[] = refl
squeeze_idem (String.◌∷◌ c s) = elim (Bool-cases (eqb (code c) 95 && starts_low (squeeze s))) [
  | inl e ↦ rw e (squeeze_idem s)
  | inr e ↦ rw e (rw (squeeze_idem s, e))
]

lstrip-low : (s : String) → starts_low s ≡ true → lstrip s ≡ s
unfolding lstrip starts_low is_space
lstrip-low String.[] h = refl
lstrip-low (String.◌∷◌ c s) h = ground arith

space-not-low : (c : Char) → is_space (code c) ≡ true → eqb (code c) 95 ≡ false
unfolding is_space
space-not-low c h = ground arith

lstrip-squeeze : (s : String) → lstrip (squeeze s) ≡ squeeze (lstrip s)
unfolding lstrip squeeze
lstrip-squeeze String.[] = refl
lstrip-squeeze (String.◌∷◌ c s) =
    ground (arith, space-not-low c, lstrip-squeeze s, lstrip-low (squeeze s))

starts_low-rstrip : (s : String) → starts_low (rstrip s) ≡ starts_low s
unfolding rstrip starts_low
starts_low-rstrip String.[] = refl
starts_low-rstrip (String.◌∷◌ c s) = elim (Bool-cases (is_space (code c) && (rstrip s == ""))) [
  | inl e ↦ rw e (sym (space-not-low c (and-true (is_space (code c)) (rstrip s == "") e).0))
  | inr e ↦ rw e
]

nonempty-low : (s : String) → starts_low s ≡ true → (s == "") ≡ false
unfolding starts_low
nonempty-low String.[] h = cc
nonempty-low (String.◌∷◌ c s) h = cons-nonempty c s

squeeze-empty : (s : String) → (squeeze s == "") ≡ (s == "")
unfolding squeeze starts_low
squeeze-empty String.[] = refl
squeeze-empty (String.◌∷◌ c s) = elim (Bool-cases (eqb (code c) 95 && starts_low (squeeze s))) [
  | inl e ↦ rw e (
      nonempty-low (squeeze s) (and-true (eqb (code c) 95) (starts_low (squeeze s)) e).1
      ∙ sym (cons-nonempty c s))
  | inr e ↦ rw e (cons-nonempty c (squeeze s) ∙ sym (cons-nonempty c s))
]

-- the head's two tests of `squeeze` and `rstrip` give the same before and after the other
rstrip-tail :
    (c : Char) (s : String)
    → rstrip (squeeze s) ≡ squeeze (rstrip s)
    → (rstrip (squeeze s) == "") ≡ (rstrip s == "")
rstrip-tail c s h = rw h (squeeze-empty (rstrip s))

low-tail : (s : String) → starts_low (squeeze (rstrip s)) ≡ starts_low (squeeze s)
low-tail s = starts_low-squeeze (rstrip s) ∙ starts_low-rstrip s ∙ sym (starts_low-squeeze s)

rstrip-squeeze : (s : String) → rstrip (squeeze s) ≡ squeeze (rstrip s)
unfolding rstrip squeeze
rstrip-squeeze String.[] = refl
rstrip-squeeze (String.◌∷◌ c s) = elim (Bool-cases (is_space (code c) && (rstrip s == ""))) [
  | inl e ↦ rw e (
      rw (space-not-low c (and-true (is_space (code c)) (rstrip s == "") e).0)
        (rw (rstrip-tail c s (rstrip-squeeze s)) (rw e)))
  | inr e ↦ rw e (elim (Bool-cases (eqb (code c) 95 && starts_low (squeeze s))) [
    | inl l ↦ rw (l, low-tail s) (rw l (rstrip-squeeze s))
    | inr l ↦
        rw (l, low-tail s) (rw (l, rstrip-tail c s (rstrip-squeeze s)) (rw (e, rstrip-squeeze s)))
  ])
]

eqb-lower_char : (c : Char) → eqb (code (lower_char c)) 95 ≡ eqb (code c) 95
eqb-lower_char c = ground (arith, code-lower_char c)

starts_low-lower : (s : String) → starts_low (lower s) ≡ starts_low s
unfolding starts_low lower
starts_low-lower String.[] = refl
starts_low-lower (String.◌∷◌ c s) = eqb-lower_char c

lower-squeeze : (s : String) → lower (squeeze s) ≡ squeeze (lower s)
unfolding lower squeeze
lower-squeeze String.[] = refl
lower-squeeze (String.◌∷◌ c s) = ground (
  arith,
  eqb-lower_char c,
  lower-squeeze s,
  starts_low-lower s,
  starts_low-squeeze s,
  starts_low-squeeze (lower s),
)

norm-squeeze : (s : String) → norm (squeeze s) ≡ squeeze (norm s)
unfolding norm strip
norm-squeeze s = rw (lstrip-squeeze s, rstrip-squeeze (lstrip s), lower-squeeze (rstrip (lstrip s)))

pub normalize_default : normalize_agent_id "default" ≡ "default"
unfolding normalize_agent_id squeeze starts_low norm strip lower lower_char or_text
normalize_default = refl

-- Normalizing an agent's id twice is normalizing it once.
pub normalize_agent_id_idem :
    (a : String) → normalize_agent_id (normalize_agent_id a) ≡ normalize_agent_id a
unfolding normalize_agent_id or_text
normalize_agent_id_idem a = elim (Bool-cases (squeeze (norm a) == "")) [
  | inl e ↦ rw e normalize_default
  | inr e ↦ rw e (rw (norm-squeeze (norm a), norm_idem a, squeeze_idem (norm a), e))
]
