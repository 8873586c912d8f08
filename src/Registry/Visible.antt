-- ===== src/Registry/Visible.antt =====
-- Which tools `get_visible_definitions` of zen_claw/agent/tools/registry.py shows.
use zen_claw.Base.{
  ℕ, zero, suc, ◌+◌, ◌≤◌, ◌==◌, max, length, length-take, take, ltb, leb, if◌then◌else◌, String,
  ◌≡◌, refl, Bool, true, false, not, ◌&&◌, Option, List, [], ◌∷◌, arith, eq_iff,
}
use zen_claw.Base.Text.{norm, norm_idem}
use zen_claw.Base.Dict.{Dict}
use zen_claw.Base.Sets.{contains}
use zen_claw.Registry.State.{Tool, ToolRegistry, keys, tool_names}
use zen_claw.Registry.Gates.{
  Gate, opened, lists, lists_or_all, kill_switch_gate, skill_gate, profile_gate, policy_gate,
  name_gates,
}
use zen_claw.Registry.Selector.{is_top, chosen, ranked, bm25_select}
use zen_claw.Registry.Execute.{
  Hint, hinted, is_visible, visible_from, get_visible_definitions, normalize_option, deny_names,
}
use zen_claw.ToolPolicy.Rules as Rules

abbrev pub is_open : Gate → Bool
is_open opened = true
is_open other = false

evaluate-norm :
    (e : Rules.Engine) (name : String) → Rules.evaluate e (norm name) ≡ Rules.evaluate e name
unfolding Rules.evaluate
evaluate-norm e name = rw norm_idem

-- the gates that look at the name alone let a tool through exactly when it is shown
pub is_open-name_gates :
    (r : ToolRegistry) (name : String) → is_open (name_gates r name) ≡ is_visible r (norm name)
unfolding name_gates is_visible kill_switch_gate skill_gate profile_gate policy_gate
is_open-name_gates r name = ground (arith, evaluate-norm r.policy name)

-- `name in d.keys()`
contains-visible_from :
    (r : ToolRegistry) (allow : Option (List String)) (deny : List String) (tools : Dict Tool)
    (name : String)
    → contains name (visible_from r allow deny tools) ≡ (
        contains name (keys tools)
        && not (lists deny (norm name))
        && lists_or_all allow (norm name)
        && is_visible r (norm name))
unfolding visible_from contains
contains-visible_from r allow deny [] name = refl
contains-visible_from r allow deny ((other, tool) ∷ tools) name =
    ground (arith, eq_iff name other, contains-visible_from r allow deny tools name)

-- what a selection leaves stands in the list
contains-take :
    (name : String) (n : ℕ) (names : List String)
    → contains name (take n names) ≡ true
    → contains name names ≡ true
unfolding contains
contains-take name zero names h = ground (arith, h)
contains-take name (suc n) [] h = ground (arith, h)
contains-take name (suc n) (other ∷ names) h =
    ground (arith, eq_iff name other, contains-take name n names, h)

contains-chosen :
    (name : String) (top : List ℕ) (i : ℕ) (names : List String)
    → contains name (chosen top i names) ≡ true
    → contains name names ≡ true
unfolding contains chosen
contains-chosen name top i [] h = h
contains-chosen name top i (other ∷ names) h =
    ground (arith, eq_iff name other, contains-chosen name top (suc i) names, h)

contains-hinted :
    (h : Hint) (name : String) (names : List String)
    → contains name (hinted h names) ≡ true
    → contains name names ≡ true
unfolding hinted bm25_select
contains-hinted h name names c = ground (
  arith,
  c,
  contains-take name h.semantic_top_k names,
  contains-chosen name (take h.semantic_top_k (ranked (h.scores names) 0 (length names))) 0 names,
)

-- a number of the list is met at most once as the indices go up
length-chosen_one {ℓ} :
    {A : Type ℓ} (j : ℕ) (top : List ℕ) (i : ℕ) (ts : List A)
    → length (chosen (j ∷ top) i ts) ≤ (if ltb j i then 0 else 1) + length (chosen top i ts)
unfolding chosen is_top
length-chosen_one j top i [] = ground arith
length-chosen_one j top i (t ∷ ts) = ground (arith, length-chosen_one j top (suc i) ts)

length-chosen {ℓ} :
    {A : Type ℓ} (top : List ℕ) (i : ℕ) (ts : List A) → length (chosen top i ts) ≤ length top
unfolding chosen is_top
length-chosen [] i [] = omega arith
length-chosen [] i (t ∷ ts) = length-chosen [] (suc i) ts
length-chosen (j ∷ top) i ts = ground (arith, length-chosen_one j top i ts, length-chosen top i ts)

length-hinted :
    (h : Hint) (names : List String)
    → length (hinted h names)
      ≤ max (if h.query_hint == "" then length names else h.semantic_threshold) h.semantic_top_k
unfolding hinted bm25_select
length-hinted h names =
    let order = ranked (h.scores names) 0 (length names) in
    ground (
      arith,
      length-take h.semantic_top_k names,
      length-take h.semantic_top_k order,
      length-chosen (take h.semantic_top_k order) 0 names,
    )

hinted_few :
    (h : Hint) (names : List String)
    → (if leb (length names) h.semantic_threshold then hinted h names else names) ≡ names
unfolding hinted
hinted_few h names = ground arith

-- a call without a query
abbrev pub no_hint : Hint
no_hint = record {
  query_hint = "";
  semantic_top_k = 10;
  semantic_threshold = 12;
  scores = λ names i. 0;
}

hinted_off : (names : List String) → hinted no_hint names ≡ names
unfolding hinted
hinted_off names = refl

-- Without a query, a tool is among the definitions shown exactly when it is registered, the extra
-- lists of the call let it through, and `execute` would let it pass the kill switch, the skill gate,
-- the profile's gate and the policy. With a query, whatever the scores of the tools are, only tools
-- that are shown without it are shown; no more of them than the larger of the threshold and `top_k`;
-- and all of them, where they are no more than the threshold.
pub contains-get_visible_definitions :
    (r : ToolRegistry) (allow deny : Option (List String)) (h : Hint) (name : String)
    → let all = get_visible_definitions r allow deny no_hint in
      let shown = get_visible_definitions r allow deny h in
      (contains name all ≡ (
        contains name (tool_names r)
        && not (lists (deny_names deny) (norm name))
        && lists_or_all (normalize_option allow) (norm name)
        && is_open (name_gates r name)))
      × (contains name shown && not (contains name all) ≡ false)
      × (length shown
          ≤ max (if h.query_hint == "" then length all else h.semantic_threshold) h.semantic_top_k)
      × ((if leb (length all) h.semantic_threshold then shown else all) ≡ all)
unfolding get_visible_definitions tool_names
contains-get_visible_definitions r allow deny h name =
    let all = visible_from r (normalize_option allow) (deny_names deny) r.tools in
    rw (hinted_off all) (
      rw is_open-name_gates
          (contains-visible_from r (normalize_option allow) (deny_names deny) r.tools name),
      ground (arith, contains-hinted h name all),
      length-hinted h all,
      hinted_few h all,
    )
