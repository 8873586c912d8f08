-- ===== src/Node/Policies.antt =====
-- The nodes' task policies in zen_claw/node/service.py.
use zen_claw.Base.{
  ℕ, String, Bool, true, false, not, ◌||◌, Option, none, some, List, [], ◌∷◌, map, ◌==◌, eqb, keep,
  if◌then◌else◌,
}
use zen_claw.Base.Int.{ℤ, max_zero, max_one}
use zen_claw.Base.Dict.{get, put}
use zen_claw.Base.Text.{norm, starts_with}
use zen_claw.Base.Sets.{contains}
use zen_claw.Node.Data.{Policy, Store, default_policy}
use Prim.Native.String.{◌++◌}

-- `[str(x).strip().lower() for x in names if str(x).strip()]`
unfoldable pub clean_names : List String → List String
unfolding keep
clean_names names = keep (λ x. not (x == "")) (map norm names)

-- `n or 1`, kept at 1 or more
abbrev pub at_least_one : ℕ → ℕ
at_least_one n = if eqb n 0 then 1 else n

unfoldable pub normalize_policy : Policy → Policy
normalize_policy p = record p {
  allowed_task_types = clean_names p.allowed_task_types;
  max_running_tasks = at_least_one p.max_running_tasks;
  require_approval_task_types = clean_names p.require_approval_task_types;
  approval_required_count = at_least_one p.approval_required_count;
}

-- `_get_node_policy`
unfoldable pub get_node_policy : Store → String → Policy
unfolding normalize_policy
get_node_policy s node_id = elim (get s.nodes node_id) [
  | none ↦ default_policy
  | some node ↦ normalize_policy node.policy
]

unfoldable pub get_policy : Store → String → Option Policy
get_policy s node_id = elim (get s.nodes node_id) [
  | none ↦ none
  | some node ↦ some (get_node_policy s node_id)
]

-- The keyword arguments of `update_policy`; `none` leaves a field.
pub record PolicyUpdate : Type 0 where
  pub allowed_task_types : Option (List String)
  pub allow_gateway_tasks : Option Bool
  pub max_running_tasks : Option ℤ
  pub require_approval_task_types : Option (List String)
  pub approval_timeout_sec : Option ℤ
  pub approval_required_count : Option ℤ

abbrev pub or_any : List String → List String
or_any [] = "*" ∷ []
or_any (x ∷ xs) = x ∷ xs

abbrev pub chosen {ℓ ℓ₁} : {A : Type ℓ} {B : Type ℓ₁} → Option A → (A → B) → B → B
chosen none f old = old
chosen (some a) f old = f a

unfoldable pub updated_policy : PolicyUpdate → Policy → Policy
updated_policy u current = record {
  allowed_task_types =
      chosen u.allowed_task_types (λ names. or_any (clean_names names)) current.allowed_task_types;
  allow_gateway_tasks = chosen u.allow_gateway_tasks (λ b. b) current.allow_gateway_tasks;
  max_running_tasks = chosen u.max_running_tasks max_one current.max_running_tasks;
  require_approval_task_types =
      chosen u.require_approval_task_types clean_names current.require_approval_task_types;
  approval_timeout_sec = chosen u.approval_timeout_sec max_zero current.approval_timeout_sec;
  approval_required_count =
      chosen u.approval_required_count max_one current.approval_required_count;
}

unfoldable pub update_policy : Store → String → PolicyUpdate → ℕ → Store × Option Policy
update_policy s node_id u now = elim (get s.nodes node_id) [
  | none ↦ (s, none)
  | some node ↦
      let current = updated_policy u (get_node_policy s node_id) in
      (
        record s {
          nodes = put s.nodes node_id (record node { policy = current; updated_at_ms = now });
        },
        some current,
      )
]

-- `rule[:-2]` of a rule that ends with ".*"
unfoldable pub wildcard : String → Option String
wildcard String.[] = none
wildcard (String.◌∷◌ c s) =
    if String.◌∷◌ c s == ".*"
    then some ""
    else elim (wildcard s) [ none ↦ none | some p ↦ some (String.◌∷◌ c p) ]

unfoldable pub rule_matches : String → String → Bool
rule_matches t rule = elim (wildcard rule) [
  | none ↦ t == rule
  | some prefix ↦ starts_with t (prefix ++ ".")
]

unfoldable pub any_rule : String → List String → Bool
any_rule t [] = false
any_rule t (rule ∷ rules) = rule_matches t rule || any_rule t rules

-- `_task_type_allowed`
unfoldable pub task_type_allowed : String → List String → Bool
task_type_allowed task_type patterns =
    let t = norm task_type in
    let rules = clean_names patterns in
    if t == "" then false else contains "*" rules || any_rule t rules

-- `_required_capability_for_task`
unfoldable pub required_capability_for_task : String → String
required_capability_for_task task_type =
    let t = norm task_type in
    if starts_with t "message."
    then "notify"
    else if starts_with t "browser."
    then "browser"
    else if starts_with t "capture."
    then "camera"
    else ""

-- `_node_has_capability`
unfoldable pub node_has_capability : Store → String → String → Bool
node_has_capability s node_id capability = elim (get s.nodes node_id) [
  | none ↦ false
  | some node ↦
      let wanted = norm capability in
      if wanted == "" then true else contains wanted (map norm node.capabilities)
]
