-- ===== src/Node/Capacity.antt =====
-- `max_running_tasks` bounds what a node or the gateway takes from the queue.
use zen_claw.Base.{
  ℕ, ◌+◌, ◌≤◌, String, ◌≡◌, refl, Bool, true, false, some, arith, eq_iff, update_first, find_first,
  find_first-test, count-update_first, Bool-cases, Option-cases, inl, inr, leb, if◌then◌else◌,
}
use zen_claw.Node.Data.{Task, Store, Status, leased, running, is_active, is_pending}
use zen_claw.Node.Tokens.{auth}
use zen_claw.Node.Policies.{get_node_policy}
use zen_claw.Node.Queue.{
  is_active_on, active_task_count, is_pending_on, pull_task, is_claimable, claim_next_gateway_task,
  lease, is_task_of, may_ack, ack_task,
}

-- What is claimed of a store before and after a task `t` is handed to a worker of node `node_id`.
pub record IsWithinCapacity (s s' : Store) (node_id : String) (t : Task) : Type 0 where
  pub of_node : t.node_id ≡ node_id
  pub active : is_active t.status ≡ true
  pub one_more : active_task_count s'.tasks node_id ≡ active_task_count s.tasks node_id + 1
  pub within : active_task_count s'.tasks node_id ≤ (get_node_policy s node_id).max_running_tasks

-- the one write of a lease to a task that is pending makes one more task active
active_of_lease :
    (s : Store) (status : Status) (worker : String) (now : ℕ) (p : Task → Bool) (x : Task)
    → find_first p s.tasks ≡ some x
    → is_active x.status ≡ false
    → is_active status ≡ true
    → active_task_count (update_first p (lease status worker now) s.tasks) x.node_id
      ≡ active_task_count s.tasks x.node_id + 1
unfolding active_task_count is_active_on
active_of_lease s status worker now p x found idle active = ground (
  arith,
  eq_iff x.node_id x.node_id,
  count-update_first (is_active_on x.node_id) p (lease status worker now) s.tasks x found,
)

pending-not-active : (x : Status) → is_pending x ≡ true → is_active x ≡ false
unfolding is_pending is_active
pending-not-active x h = ground arith

leased_within :
    (s : Store) (node_id : String) (status : Status) (worker : String) (now : ℕ) (p : Task → Bool)
    (x t : Task)
    → find_first p s.tasks ≡ some x
    → x.node_id ≡ node_id
    → is_pending x.status ≡ true
    → is_active status ≡ true
    → leb (get_node_policy s node_id).max_running_tasks (active_task_count s.tasks node_id) ≡ false
    → some (lease status worker now x) ≡ some t
    → IsWithinCapacity s
        (record s { tasks = update_first p (lease status worker now) s.tasks })
        node_id
        t
leased_within s node_id status worker now p x t found of_node waits active room e =
    let one_more =
      rw of_node at (
        active_of_lease s status worker now p x found (pending-not-active x.status waits) active) in
    record {
      of_node = ground (arith, e, of_node);
      active = ground (arith, e, active);
      one_more = one_more;
      within = ground (arith, one_more, room);
    }

is_pending_on-true :
    (node_id : String) (x : Task)
    → is_pending_on node_id x ≡ true
    → (x.node_id ≡ node_id) × (is_pending x.status ≡ true)
unfolding is_pending_on
is_pending_on-true node_id x h = ground (arith, eq_iff x.node_id node_id)

-- A pull that hands out a task is authenticated, hands out a task of that node, makes the number of
-- the node's active tasks one larger, and leaves it within the node's `max_running_tasks`.
pub pull_task-IsWithinCapacity :
    (s : Store) (node_id token : String) (auth_ms now : ℕ) (t : Task)
    → (pull_task s node_id token auth_ms now).1 ≡ some t
    → (auth s node_id token auth_ms ≡ true)
      × IsWithinCapacity s (pull_task s node_id token auth_ms now).0 node_id t
unfolding pull_task is_active
pull_task-IsWithinCapacity s node_id token auth_ms now t h =
    elim (Bool-cases (auth s node_id token auth_ms)) [
      | inr e ↦ ground (arith, e)
      | inl e ↦
          elim (Bool-cases (
            leb (get_node_policy s node_id).max_running_tasks
              (active_task_count s.tasks node_id))) [
                | inl f ↦ ground (arith, e, f)
                | inr f ↦ elim (Option-cases (find_first (is_pending_on node_id) s.tasks)) [
                  | inl g ↦ ground (arith, e, f, g)
                  | inr (x, g) ↦
                      let (of_node, waits) =
                        is_pending_on-true node_id x
                          (find_first-test (is_pending_on node_id) s.tasks x g) in
                      rw (e, f, g, pull_task)
                        (
                          refl,
                          leased_within s node_id leased node_id now (is_pending_on node_id) x t g
                              of_node waits refl f (rw (e, f, g, pull_task) at h),
                        )
                ]
              ]
    ]

is_claimable-true :
    (s : Store) (x : Task)
    → is_claimable s x ≡ true
    → (is_pending x.status ≡ true)
      × ((get_node_policy s x.node_id).allow_gateway_tasks ≡ true)
      × (leb (get_node_policy s x.node_id).max_running_tasks (active_task_count s.tasks x.node_id)
          ≡ false)
unfolding is_claimable
is_claimable-true s x h = ground arith

-- A claim by the gateway that hands out a task does so only if the policy of the task's node allows
-- gateway tasks, makes the number of that node's active tasks one larger, and leaves it within the
-- node's `max_running_tasks`.
pub claim-IsWithinCapacity :
    (s : Store) (worker_id : String) (now : ℕ) (t : Task)
    → (claim_next_gateway_task s worker_id now).1 ≡ some t
    → ((get_node_policy s t.node_id).allow_gateway_tasks ≡ true)
      × IsWithinCapacity s (claim_next_gateway_task s worker_id now).0 t.node_id t
unfolding claim_next_gateway_task is_active
claim-IsWithinCapacity s worker_id now t h =
    elim (Option-cases (find_first (is_claimable s) s.tasks)) [
      | inl g ↦ ground (arith, g)
      | inr (x, g) ↦
          let (waits, allowed, room) =
            is_claimable-true s x (find_first-test (is_claimable s) s.tasks x g) in
          let e = rw (g, claim_next_gateway_task) at h in
          let same : x.node_id ≡ t.node_id = ground (arith, e) in
          rw (g, claim_next_gateway_task)
            (
              rw same at allowed,
              leased_within s t.node_id running worker_id now (is_claimable s) x t g same waits refl
                  (rw same at room) e,
            )
    ]

is_task_of-true :
    (task_id node_id : String) (x : Task)
    → is_task_of task_id node_id x ≡ true
    → x.node_id ≡ node_id
unfolding is_task_of
is_task_of-true task_id node_id x h = ground (arith, eq_iff x.node_id node_id)

-- An authenticated acknowledgement of a task that is leased or pending succeeds whatever the node's
-- policy says. It leaves the number of active tasks as it is if the task was leased, and makes it
-- one larger if it was pending, so that it may pass `max_running_tasks`.
pub ack_task_count :
    (s : Store) (node_id token task_id : String) (auth_ms now : ℕ) {x : Task}
    → auth s node_id token auth_ms ≡ true
    → find_first (is_task_of task_id node_id) s.tasks ≡ some x
    → may_ack x.status ≡ true
    → ((ack_task s node_id token task_id auth_ms now).1 ≡ true)
      × (active_task_count (ack_task s node_id token task_id auth_ms now).0.tasks node_id
          ≡ active_task_count s.tasks node_id + (if is_active x.status then 0 else 1))
unfolding ack_task
ack_task_count s node_id token task_id auth_ms now {x} a f m =
    let of_node =
      is_task_of-true task_id node_id x
        (find_first-test (is_task_of task_id node_id) s.tasks x f) in
    rw (a, f, m, ack_task)
      (
        refl,
        unfold active_task_count is_active_on is_active in
            ground (
              arith,
              of_node,
              eq_iff x.node_id node_id,
              eq_iff node_id node_id,
              count-update_first (is_active_on node_id) (is_task_of task_id node_id)
                  (lease running node_id now) s.tasks x f,
            ),
      )
