-- ===== src/Node/Tests.antt =====
-- A small store, and the theorems at it.
use zen_claw.Base.{
  ℕ, zero, suc, arith, ap, ◌≡◌, refl, true, false, none, some, List, [], ◌∷◌, map, length, keep,
  count, find_first, update_first, All,
}
use zen_claw.Base.Text.{norm, strip, lower, has_substring, starts_with}
use zen_claw.Base.Dict.{get, put}
use zen_claw.Base.Int.{pos, max_zero, max_one}
use zen_claw.Base.Sets.{contains, add, add_nonempty, sorted}
use zen_claw.Node.Payload.{text, decimal, str_or_empty, truthy, value_eq, payload_eq}
use zen_claw.Node.Data.{
  running, Store, Config, Codec, empty, leased, is_active, is_pending, is_pending_approval,
}
use zen_claw.Node.Tokens.{
  register_node, rotate_token, revoke_token, heartbeat, expiry, has_expired, auth, auth_node,
  chosen_ttl,
}
use zen_claw.Node.Policies.{
  PolicyUpdate, update_policy, updated_policy, clean_names, normalize_policy, get_node_policy,
  get_policy, wildcard, rule_matches, any_rule, task_type_allowed, required_capability_for_task,
  node_has_capability,
}
use zen_claw.Node.Events.{
  NewEvent, valid, chain_broken, last_hash, sign, trim_events, make_event, append_event,
  verify_approval_events,
}
use zen_claw.Node.Submit.{
  Request, deduplicated, key_violations, first_marker, prompt_of, collect_static_violations,
  is_replay, replay, find_replay, required_capability, make_task, create_task, check_task, add_task,
}
use zen_claw.Node.Queue.{
  is_active_on, active_task_count, is_pending_on, pull_task, is_task_of, may_ack, ack_task,
  is_claimable, claim_next_gateway_task, lease, has_id, finish, limited_result,
}
use zen_claw.Node.Approvals.{
  Stamp, approver_set, approve, approved_list, reached, approve_task, task_event,
}
use zen_claw.Node.Machine.{Operation, register, set_policy, submit, approving, pull, step, run}
use zen_claw.Node.PolicyLaws.{get_policy-update_policy}
use zen_claw.Node.Capacity.{IsWithinCapacity, pull_task-IsWithinCapacity, claim-IsWithinCapacity}
use zen_claw.Node.Quorum.{IsQuorate, run-IsQuorate}
use zen_claw.Node.Moves.{Evolves, step-Evolves}
use zen_claw.Node.EventLog.{IsMonotone}
use zen_claw.Node.Chain.{record_from, verify-record_from, verify-record_from_long}
use zen_claw.Node.Replays.{again, add_task-again}

abbrev cfg : Config
cfg = record { audit_secret = "s"; default_token_ttl_sec = 0; idempotency_window_sec = 60 }

abbrev codec : Codec
codec = record { sha256 = λ b. "h"; hmac = λ k b. b.task_id; json_bytes = λ p. 10 }

abbrev one_node : Store
one_node = (register_node cfg empty "lab" "linux" ("Notify" ∷ []) "n1" "t1" 1000).0

abbrev prompt : Request
prompt = record {
  node_id = "n1";
  task_type = " Agent.Prompt";
  payload = ("prompt", text "hi") ∷ [];
  idempotency_key = "k";
  required_capability = "";
  task_id = "a";
  trace_id = "tr";
  event_id = "e1";
  replay_ms = 2000;
  created_ms = 2000;
  deadline_ms = 2000;
  event_ms = 2000;
}

abbrev one_task : Store
one_task = (add_task cfg codec one_node prompt).0

abbrev with_approval : PolicyUpdate
with_approval = record {
  allowed_task_types = none;
  allow_gateway_tasks = none;
  max_running_tasks = some (pos 2);
  require_approval_task_types = some ("agent.*" ∷ []);
  approval_timeout_sec = none;
  approval_required_count = none;
}

program : Unit {0}
unfolding register_node expiry has_expired auth auth_node rotate_token chosen_ttl revoke_token
    heartbeat norm strip lower has_substring starts_with get put max_zero max_one contains add
    add_nonempty sorted clean_names normalize_policy updated_policy update_policy get_node_policy
    get_policy wildcard rule_matches any_rule task_type_allowed required_capability_for_task
    node_has_capability keep count find_first update_first str_or_empty truthy value_eq payload_eq
    decimal is_active is_pending is_pending_approval last_hash sign trim_events make_event
    append_event key_violations first_marker prompt_of collect_static_violations is_replay replay
    find_replay required_capability make_task create_task check_task add_task is_active_on
    active_task_count is_pending_on pull_task is_task_of may_ack ack_task is_claimable
    claim_next_gateway_task has_id finish limited_result approver_set approve approved_list reached
    approve_task task_event step run again
program = tt

get_policy-update_policy_example :
    get_policy (update_policy one_node "n1" with_approval 5000).0 "n1"
    ≡ (update_policy one_node "n1" with_approval 5000).1
get_policy-update_policy_example = get_policy-update_policy one_node "n1" with_approval 5000

pull_task-IsWithinCapacity_example :
    (auth one_task "n1" "t1" 3000 ≡ true)
    × IsWithinCapacity one_task
        (pull_task one_task "n1" "t1" 3000 3001).0
        "n1"
        (lease leased "n1" 3001 (make_task (get_node_policy one_node "n1") prompt false))
unfolding program
pull_task-IsWithinCapacity_example =
    pull_task-IsWithinCapacity one_task "n1" "t1" 3000 3001
      (lease leased "n1" 3001 (make_task (get_node_policy one_node "n1") prompt false)) refl

-- the second task of a node that runs one already
abbrev two_tasks : Store
two_tasks =
    (add_task cfg codec (pull_task one_task "n1" "t1" 3000 3001).0
      (record prompt { task_id = "b"; idempotency_key = "" })).0

abbrev stamp : Stamp
stamp = record { event_id = "e2"; at_ms = 4000 }

abbrev history : List Operation
history =
    register "lab" "linux" ("Notify" ∷ []) "n1" "t1" 1000
    ∷ set_policy "n1" with_approval 1500
    ∷ submit prompt
    ∷ approving "a" " ann " "ok" 4000 4001 stamp
    ∷ pull "n1" "t1" 5000 5001
    ∷ []

run-IsQuorate_example : All IsQuorate (run cfg codec empty history).tasks
run-IsQuorate_example = run-IsQuorate cfg codec history

history_runs : map (λ t. t.status) (run cfg codec empty history).tasks ≡ leased ∷ []
unfolding program
history_runs = refl

step-Evolves_example :
    Evolves two_tasks.tasks
      (step cfg codec two_tasks (approving "b" "ann" "" 4000 4001 stamp)).tasks
step-Evolves_example = step-Evolves cfg codec two_tasks (approving "b" "ann" "" 4000 4001 stamp)

abbrev noted : NewEvent
noted = record {
  event_id = "e";
  task_id = "a";
  node_id = "n1";
  action = " Approved";
  actor = "ann";
  note = "";
  trace_id = "tr";
  at_ms = 7;
}

abbrev repeat : ℕ → List NewEvent
repeat zero = []
repeat (suc n) = noted ∷ repeat n

repeat-IsMonotone : (n : ℕ) → IsMonotone 7 (repeat n)
repeat-IsMonotone zero = tt
repeat-IsMonotone (suc n) = (omega arith, repeat-IsMonotone n)

length-repeat : (n : ℕ) → length (repeat n) ≡ n
length-repeat zero = refl
length-repeat (suc n) = ap suc (length-repeat n)

verify-record_from_example :
    verify_approval_events cfg codec (record_from cfg codec [] (noted ∷ noted ∷ [])) ≡ valid 2
verify-record_from_example =
    verify-record_from cfg codec (noted ∷ noted ∷ []) (omega arith, (omega arith, tt)) (omega arith)

verify-record_from_long_example :
    verify_approval_events cfg codec (record_from cfg codec [] (noted ∷ repeat 2000))
    ≡ chain_broken 0
verify-record_from_long_example =
    verify-record_from_long cfg codec (noted ∷ repeat 2000) (λ b. refl)
      (omega arith, repeat-IsMonotone 2000) (omega (arith, length-repeat 2000))

add_task-again_example :
    add_task cfg codec one_task (again prompt "b" "tr2" "e2" 50000 50001 50002 50003)
    ≡ (one_task, deduplicated (make_task (get_node_policy one_node "n1") prompt false))
unfolding program
add_task-again_example =
    add_task-again cfg codec one_node prompt
      (make_task (get_node_policy one_node "n1") prompt false) "b" "tr2" "e2" 50000 50001 50002
      50003 refl refl refl (omega arith) refl

claim-IsWithinCapacity_example :
    ((get_node_policy one_task "n1").allow_gateway_tasks ≡ true)
    × IsWithinCapacity one_task
        (claim_next_gateway_task one_task "g" 3001).0
        "n1"
        (lease running "g" 3001 (make_task (get_node_policy one_node "n1") prompt false))
unfolding program
claim-IsWithinCapacity_example =
    claim-IsWithinCapacity one_task "g" 3001
      (lease running "g" 3001 (make_task (get_node_policy one_node "n1") prompt false)) refl
