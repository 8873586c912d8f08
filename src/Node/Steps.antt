-- ===== src/Node/Steps.antt =====
-- Each operation of `NodeService` makes one of the changes of `Changes`.
use zen_claw.Base.{
  ℕ, suc, String, ◌≡◌, refl, Bool, true, ◌||◌, ◌⊎◌, Option, List, [], ◌∷◌, arith, ◌==◌, leb,
  find_first, find_first-test, Bool-cases, Option-cases, inl, inr,
}
use zen_claw.Base.Text.{strip, strip_idem}
use zen_claw.Node.Payload.{Payload}
use zen_claw.Node.Data.{
  Status, leased, running, Task, Event, Store, Config, Codec, is_active, is_pending,
  is_pending_approval,
}
use zen_claw.Node.Tokens.{auth, register_node}
use zen_claw.Node.Policies.{get_node_policy}
use zen_claw.Node.Submit.{Request, create_task, add_task}
use zen_claw.Node.Queue.{
  lease, is_pending_on, active_task_count, is_task_of, may_ack, finish, limited_result, has_id,
  is_claimable, pull_task, ack_task, complete_task, complete_task_system, claim_next_gateway_task,
}
use zen_claw.Node.Approvals.{
  Stamp, approve, reject, is_overdue, approve_task, reject_task, expire_from,
  expire_pending_approvals,
}
use zen_claw.Node.Machine.{
  Operation, register, rotate, revoke, scan, beat, set_policy, submit, pull, ack, complete,
  complete_system, claim, approving as approve_op, rejecting as reject_op, expiring, step,
}
use zen_claw.Node.Changes.{
  leasing, finishing, approving, rejecting, Sweep, nil, kept, expired, Change, same, edit, added,
  swept, tasks-rotate_token, tasks-revoke_token, tasks-heartbeat, tasks-update_policy, tasks-scan,
}

may_ack_of_pending : (x : Status) → is_pending x ≡ true → may_ack x ≡ true
unfolding may_ack is_pending
may_ack_of_pending x h = ground arith

is_pending_on-status :
    (node_id : String) (x : Task) → is_pending_on node_id x ≡ true → is_pending x.status ≡ true
unfolding is_pending_on
is_pending_on-status node_id x h = ground arith

is_claimable-status : (s : Store) (x : Task) → is_claimable s x ≡ true → is_pending x.status ≡ true
unfolding is_claimable
is_claimable-status s x h = ground arith

module _ (s : Store) where
  pull_task-Change :
      (node_id token : String) (auth_ms now : ℕ)
      → Change s.tasks (pull_task s node_id token auth_ms now).0.tasks
  unfolding pull_task is_active
  pull_task-Change node_id token auth_ms now = elim (Bool-cases (auth s node_id token auth_ms)) [
    | inr e ↦ rw (e, pull_task) (same refl)
    | inl e ↦
        elim (Bool-cases
          (leb (get_node_policy s node_id).max_running_tasks (active_task_count s.tasks node_id))) [
            | inl f ↦ rw (e, f, pull_task) (same refl)
            | inr f ↦ elim (Option-cases (find_first (is_pending_on node_id) s.tasks)) [
              | inl g ↦ rw (e, f, g, pull_task) (same refl)
              | inr (x, g) ↦
                  let waits =
                    is_pending_on-status node_id x
                      (find_first-test (is_pending_on node_id) s.tasks x g) in
                  rw (e, f, g, pull_task)
                    (edit (is_pending_on node_id) (lease leased node_id now) x g
                      (leasing leased node_id now (may_ack_of_pending x.status waits) refl) refl)
            ]
          ]
  ]

  ack_task-Change :
      (node_id token task_id : String) (auth_ms now : ℕ)
      → Change s.tasks (ack_task s node_id token task_id auth_ms now).0.tasks
  unfolding ack_task is_active
  ack_task-Change node_id token task_id auth_ms now =
      elim (Bool-cases (auth s node_id token auth_ms)) [
        | inr e ↦ rw (e, ack_task) (same refl)
        | inl e ↦ elim (Option-cases (find_first (is_task_of task_id node_id) s.tasks)) [
          | inl g ↦ rw (e, g, ack_task) (same refl)
          | inr (x, g) ↦ elim (Bool-cases (may_ack x.status)) [
            | inr m ↦ rw (e, g, m, ack_task) (same refl)
            | inl m ↦
                rw (e, g, m, ack_task)
                  (edit (is_task_of task_id node_id) (lease running node_id now) x g
                    (leasing running node_id now m refl) refl)
          ]
        ]
      ]

  complete_task-Change :
      (codec : Codec) (node_id token task_id : String) (ok : Bool) (result : Option Payload)
      (err : Option String) (auth_ms now : ℕ)
      → Change s.tasks
          (complete_task codec s node_id token task_id ok result err auth_ms now).0.tasks
  unfolding complete_task
  complete_task-Change codec node_id token task_id ok result err auth_ms now =
      elim (Bool-cases (auth s node_id token auth_ms)) [
        | inr e ↦ rw (e, complete_task) (same refl)
        | inl e ↦ elim (Option-cases (find_first (is_task_of task_id node_id) s.tasks)) [
          | inl g ↦ rw (e, g, complete_task) (same refl)
          | inr (x, g) ↦
              rw (e, g, complete_task)
                (edit (is_task_of task_id node_id) (finish ok (limited_result codec result) err now)
                  x g (finishing ok (limited_result codec result) err now) refl)
        ]
      ]

  complete_task_system-Change :
      (task_id : String) (ok : Bool) (result : Option Payload) (err : Option String) (now : ℕ)
      → Change s.tasks (complete_task_system s task_id ok result err now).0.tasks
  unfolding complete_task_system
  complete_task_system-Change task_id ok result err now =
      elim (Option-cases (find_first (has_id task_id) s.tasks)) [
        | inl g ↦ rw (g, complete_task_system) (same refl)
        | inr (x, g) ↦
            rw (g, complete_task_system)
              (edit (has_id task_id) (finish ok result err now) x g (finishing ok result err now)
                refl)
      ]

  claim-Change :
      (worker_id : String) (now : ℕ)
      → Change s.tasks (claim_next_gateway_task s worker_id now).0.tasks
  unfolding claim_next_gateway_task is_active
  claim-Change worker_id now = elim (Option-cases (find_first (is_claimable s) s.tasks)) [
    | inl g ↦ rw (g, claim_next_gateway_task) (same refl)
    | inr (x, g) ↦
        let waits = is_claimable-status s x (find_first-test (is_claimable s) s.tasks x g) in
        rw (g, claim_next_gateway_task)
          (edit (is_claimable s) (lease running worker_id now) x g
            (leasing running worker_id now (may_ack_of_pending x.status waits) refl) refl)
  ]

module _ (cfg : Config) (codec : Codec) (s : Store) where
  approve_task-Change :
      (task_id approved_by note : String) (approved_ms now : ℕ) (stamp : Stamp)
      → Change s.tasks
          (approve_task cfg codec s task_id approved_by note approved_ms now stamp).0.tasks
  unfolding approve_task
  approve_task-Change task_id approved_by note approved_ms now stamp =
      elim (Option-cases (find_first (has_id task_id) s.tasks)) [
        | inl g ↦ rw (g, approve_task) (same refl)
        | inr (x, g) ↦ elim (Bool-cases (is_pending_approval x.status)) [
          | inr w ↦ rw (g, w, approve_task) (same refl)
          | inl w ↦ elim (Bool-cases (strip approved_by == "")) [
            | inl b ↦ rw (g, w, b, approve_task) (same refl)
            | inr b ↦
                rw (g, w, b, approve_task)
                  (edit (has_id task_id) (approve (strip approved_by) note approved_ms now) x g
                    (approving (strip approved_by) note approved_ms now w (strip_idem approved_by)
                      b)
                    refl)
          ]
        ]
      ]

  reject_task-Change :
      (task_id rejected_by reason : String) (rejected_ms now : ℕ) (stamp : Stamp)
      → Change s.tasks
          (reject_task cfg codec s task_id rejected_by reason rejected_ms now stamp).0.tasks
  unfolding reject_task
  reject_task-Change task_id rejected_by reason rejected_ms now stamp =
      elim (Option-cases (find_first (has_id task_id) s.tasks)) [
        | inl g ↦ rw (g, reject_task) (same refl)
        | inr (x, g) ↦ elim (Bool-cases (is_pending_approval x.status || is_pending x.status)) [
          | inr w ↦ rw (g, w, reject_task) (same refl)
          | inl w ↦
              rw (g, w, reject_task)
                (edit (has_id task_id) (reject rejected_by reason rejected_ms now) x g
                  (rejecting rejected_by reason rejected_ms now w) refl)
        ]
      ]

  create_task-Change : (r : Request) → Change s.tasks (create_task cfg codec s r).0.tasks
  unfolding create_task
  create_task-Change r = added _ r _ refl

  -- a request that is refused or answered by an old task leaves the store as it is
  add_task_cases :
      (r : Request)
      → ((add_task cfg codec s r).0 ≡ s)
        ⊎ ((add_task cfg codec s r).0 ≡ (create_task cfg codec s r).0)
  unfolding add_task
  add_task_cases r = ground arith

  add_task-Change : (r : Request) → Change s.tasks (add_task cfg codec s r).0.tasks
  add_task-Change r = elim (add_task_cases r) [
    | inl e ↦ rw e (same refl)
    | inr e ↦ rw e (create_task-Change r)
  ]

expire_from-Sweep :
    (cfg : Config) (codec : Codec) (now : ℕ) (stamp : ℕ → Stamp) (i : ℕ) (tasks : List Task)
    (events : List Event)
    → Sweep now tasks (expire_from cfg codec now stamp i tasks events).0
unfolding expire_from
expire_from-Sweep cfg codec now stamp i [] events = nil
expire_from-Sweep cfg codec now stamp i (x ∷ xs) events = elim (Bool-cases (is_overdue now x)) [
  | inl e ↦ rw e (expired x e (expire_from-Sweep cfg codec now stamp (suc i) xs _))
  | inr e ↦ rw e (kept x (expire_from-Sweep cfg codec now stamp i xs events))
]

-- Whatever the operation and the store, the tasks change in one of the ways of `Change`.
pub step-Change :
    (cfg : Config) (codec : Codec) (s : Store) (o : Operation)
    → Change s.tasks (step cfg codec s o).tasks
unfolding step
step-Change cfg codec s (register name platform capabilities node_id token now) =
    unfold register_node in same refl
step-Change cfg codec s (rotate node_id ttl_sec now token) =
    same (tasks-rotate_token cfg s node_id ttl_sec now token)
step-Change cfg codec s (revoke node_id now) = same (tasks-revoke_token cfg s node_id now)
step-Change cfg codec s (scan within rotating ttl_sec now fresh) =
    same (tasks-scan cfg s within rotating ttl_sec now fresh)
step-Change cfg codec s (beat node_id token a b now) =
    same (tasks-heartbeat cfg s node_id token a b now)
step-Change cfg codec s (set_policy node_id u now) = same (tasks-update_policy cfg s node_id u now)
step-Change cfg codec s (submit r) = add_task-Change cfg codec s r
step-Change cfg codec s (pull node_id token a now) = pull_task-Change s node_id token a now
step-Change cfg codec s (ack node_id token task_id a now) =
    ack_task-Change s node_id token task_id a now
step-Change cfg codec s (complete node_id token task_id ok result err a now) =
    complete_task-Change s codec node_id token task_id ok result err a now
step-Change cfg codec s (complete_system task_id ok result err now) =
    complete_task_system-Change s task_id ok result err now
step-Change cfg codec s (claim worker_id now) = claim-Change s worker_id now
step-Change cfg codec s (approve_op task_id by note a now stamp) =
    approve_task-Change cfg codec s task_id by note a now stamp
step-Change cfg codec s (reject_op task_id by reason a now stamp) =
    reject_task-Change cfg codec s task_id by reason a now stamp
step-Change cfg codec s (expiring now stamp) = swept now (
    unfold expire_pending_approvals in
    expire_from-Sweep cfg codec now stamp 0 s.tasks s.approval_events)
