-- ===== src/Node/PolicyLaws.antt =====
-- Reading back the policy of a node in zen_claw/node/service.py.
use zen_claw.Base.{
  ℕ, String, ◌≡◌, refl, Option, none, some, List, [], ◌∷◌, arith, ap, ◌∙◌, Option-cases, inl, inr,
}
use zen_claw.Base.Int.{ℤ, max_zero, max_one}
use zen_claw.Base.Dict.{get, put, get-put}
use zen_claw.Base.Text.{norm, norm_idem}
use zen_claw.Node.Data.{Policy, Node, Store}
use zen_claw.Node.Policies.{
  clean_names, normalize_policy, get_node_policy, get_policy, PolicyUpdate, updated_policy,
  update_policy, or_any, at_least_one, chosen,
}
use text.Mathlib.TextPositions.{eq_refl}

clean_names_idem : (names : List String) → clean_names (clean_names names) ≡ clean_names names
unfolding clean_names
clean_names_idem [] = refl
clean_names_idem (x ∷ xs) = ground (arith, norm_idem x, clean_names_idem xs)

clean_names-star : clean_names ("*" ∷ []) ≡ "*" ∷ []
unfolding clean_names norm
clean_names-star = refl

clean_names-or_any :
    (names : List String) → clean_names (or_any (clean_names names)) ≡ or_any (clean_names names)
clean_names-or_any names = ground (arith, clean_names_idem names, clean_names-star)

chosen-clean :
    (o : Option (List String)) (old : List String)
    → clean_names (chosen o clean_names (clean_names old)) ≡ chosen o clean_names (clean_names old)
chosen-clean none old = clean_names_idem old
chosen-clean (some names) old = clean_names_idem names

chosen-any :
    (o : Option (List String)) (old : List String)
    → clean_names (chosen o (λ names. or_any (clean_names names)) (clean_names old))
      ≡ chosen o (λ names. or_any (clean_names names)) (clean_names old)
chosen-any none old = clean_names_idem old
chosen-any (some names) old = clean_names-or_any names

chosen-one :
    (o : Option ℤ) (old : ℕ)
    → at_least_one (chosen o max_one (at_least_one old)) ≡ chosen o max_one (at_least_one old)
unfolding max_one
chosen-one o old = ground arith

normalize_policy-updated :
    (u : PolicyUpdate) (p : Policy)
    → normalize_policy (updated_policy u (normalize_policy p))
      ≡ updated_policy u (normalize_policy p)
unfolding normalize_policy updated_policy
normalize_policy-updated u p = λ i. record {
  allowed_task_types = chosen-any u.allowed_task_types p.allowed_task_types i;
  allow_gateway_tasks = chosen u.allow_gateway_tasks (λ b. b) p.allow_gateway_tasks;
  max_running_tasks = chosen-one u.max_running_tasks p.max_running_tasks i;
  require_approval_task_types =
      chosen-clean u.require_approval_task_types p.require_approval_task_types i;
  approval_timeout_sec = chosen u.approval_timeout_sec max_zero p.approval_timeout_sec;
  approval_required_count = chosen-one u.approval_required_count p.approval_required_count i;
}

get_node_policy-found :
    (s : Store) (node_id : String) {n : Node}
    → get s.nodes node_id ≡ some n
    → get_node_policy s node_id ≡ normalize_policy n.policy
unfolding get_node_policy
get_node_policy-found s node_id e = rw (e, get_node_policy)

get_policy-found :
    (s : Store) (node_id : String) {n : Node}
    → get s.nodes node_id ≡ some n
    → get_policy s node_id ≡ some (normalize_policy n.policy)
unfolding get_policy
get_policy-found s node_id e = rw (e, get_policy) (ap some (get_node_policy-found s node_id e))

get_policy-missing :
    (s : Store) (node_id : String) → get s.nodes node_id ≡ none → get_policy s node_id ≡ none
unfolding get_policy
get_policy-missing s node_id e = rw (e, get_policy)

-- Reading the policy of a node after an update, of a known node or not, gives what the update
-- returned: what is stored is in normal form already.
pub get_policy-update_policy :
    (s : Store) (node_id : String) (u : PolicyUpdate) (now : ℕ)
    → get_policy (update_policy s node_id u now).0 node_id ≡ (update_policy s node_id u now).1
unfolding update_policy
get_policy-update_policy s node_id u now = elim (Option-cases (get s.nodes node_id)) [
  | inl e ↦ rw (e, update_policy) (get_policy-missing s node_id e)
  | inr (n, e) ↦
      let n' : Node = record n {
        policy = updated_policy u (normalize_policy n.policy);
        updated_at_ms = now;
      } in
      let s' : Store = record s { nodes = put s.nodes node_id n' } in
      rw (e, update_policy)
        (rw (get_node_policy-found s node_id e) (
          get_policy-found s' node_id {n = n'} (rw get-put (rw (eq_refl node_id)))
          ∙ ap some (normalize_policy-updated u n.policy)))
]
