-- ===== src/Node/Changes.antt =====
-- What one operation of `NodeService` may do to the list of tasks.
use zen_claw.Base.{
  ℕ, suc, String, ◌≡◌, refl, Bool, true, false, ◌||◌, Option, some, List, [], ◌∷◌, ◌++◌, arith,
  ◌==◌, find_first, update_first, Option-cases, inl, inr,
}
use zen_claw.Base.Int.{ℤ}
use zen_claw.Base.Dict.{get}
use zen_claw.Base.Text.{strip}
use zen_claw.Node.Payload.{Payload}
use zen_claw.Node.Data.{
  Policy, Status, Task, Store, Config, is_active, is_pending, is_pending_approval,
}
use zen_claw.Node.Tokens.{
  Candidate, rotate_token, revoke_token, rotate_all, scan_token_rotation, heartbeat,
}
use zen_claw.Node.Policies.{PolicyUpdate, update_policy}
use zen_claw.Node.Submit.{Request, make_task}
use zen_claw.Node.Queue.{lease, may_ack, finish}
use zen_claw.Node.Approvals.{approve, reject, expire, is_overdue}

-- What is written to one task, with the test that the code made before.
pub data Edit (x : Task) : Task → Type 0 where
  leasing :
      (status : Status) (worker : String) (now : ℕ)
      → may_ack x.status ≡ true
      → is_active status ≡ true
      → Edit x (lease status worker now x)
  finishing :
      (ok : Bool) (result : Option Payload) (err : Option String) (now : ℕ)
      → Edit x (finish ok result err now x)
  approving :
      (actor note : String) (approved_ms now : ℕ)
      → is_pending_approval x.status ≡ true
      → strip actor ≡ actor
      → (actor == "") ≡ false
      → Edit x (approve actor note approved_ms now x)
  rejecting :
      (rejected_by reason : String) (rejected_ms now : ℕ)
      → (is_pending_approval x.status || is_pending x.status) ≡ true
      → Edit x (reject rejected_by reason rejected_ms now x)

-- The tasks after the sweep of `expire_pending_approvals`.
pub data Sweep (now : ℕ) : List Task → List Task → Type 0 where
  nil : Sweep now [] []
  kept : (x : Task) {xs ys : List Task} → Sweep now xs ys → Sweep now (x ∷ xs) (x ∷ ys)
  expired :
      (x : Task) {xs ys : List Task}
      → is_overdue now x ≡ true
      → Sweep now xs ys
      → Sweep now (x ∷ xs) (expire now x ∷ ys)

pub data Change (tasks tasks' : List Task) : Type 0 where
  same : tasks' ≡ tasks → Change tasks tasks'
  edit :
      (p : Task → Bool) (f : Task → Task) (x : Task)
      → find_first p tasks ≡ some x
      → Edit x (f x)
      → tasks' ≡ update_first p f tasks
      → Change tasks tasks'
  added :
      (policy : Policy) (r : Request) (requires_approval : Bool)
      → tasks' ≡ tasks ++ make_task policy r requires_approval ∷ []
      → Change tasks tasks'
  swept : (now : ℕ) → Sweep now tasks tasks' → Change tasks tasks'

module _ (cfg : Config) (s : Store) where
  pub tasks-rotate_token :
      (node_id : String) (ttl_sec : Option ℤ) (now : ℕ) (token : String)
      → (rotate_token cfg s node_id ttl_sec now token).0.tasks ≡ s.tasks
  unfolding rotate_token
  tasks-rotate_token node_id ttl_sec now token = elim (Option-cases (get s.nodes node_id)) [
    | inl e ↦ rw (e, rotate_token)
    | inr (n, e) ↦ rw (e, rotate_token)
  ]

  pub tasks-revoke_token :
      (node_id : String) (now : ℕ) → (revoke_token s node_id now).0.tasks ≡ s.tasks
  unfolding revoke_token
  tasks-revoke_token node_id now = elim (Option-cases (get s.nodes node_id)) [
    | inl e ↦ rw (e, revoke_token)
    | inr (n, e) ↦ rw (e, revoke_token)
  ]

  pub tasks-heartbeat :
      (node_id token : String) (a b now : ℕ) → (heartbeat s node_id token a b now).0.tasks ≡ s.tasks
  unfolding heartbeat
  tasks-heartbeat node_id token a b now = ground arith

  pub tasks-update_policy :
      (node_id : String) (u : PolicyUpdate) (now : ℕ)
      → (update_policy s node_id u now).0.tasks ≡ s.tasks
  unfolding update_policy
  tasks-update_policy node_id u now = elim (Option-cases (get s.nodes node_id)) [
    | inl e ↦ rw (e, update_policy)
    | inr (n, e) ↦ rw (e, update_policy)
  ]

tasks-rotate_all :
    (cfg : Config) (s : Store) (ttl_sec : Option ℤ) (cs : List Candidate) (fresh : ℕ → ℕ × String)
    (i : ℕ)
    → (rotate_all cfg s ttl_sec cs fresh i).0.tasks ≡ s.tasks
unfolding rotate_all
tasks-rotate_all cfg s ttl_sec [] fresh i = refl
tasks-rotate_all cfg s ttl_sec (c ∷ cs) fresh i = ground (
  arith,
  tasks-rotate_token cfg s c.node_id ttl_sec (fresh i).0 (fresh i).1,
  tasks-rotate_all cfg (rotate_token cfg s c.node_id ttl_sec (fresh i).0 (fresh i).1).0 ttl_sec cs
      fresh (suc i),
)

pub tasks-scan :
    (cfg : Config) (s : Store) (within : ℤ) (rotating : Bool) (ttl_sec : Option ℤ) (now : ℕ)
    (fresh : ℕ → ℕ × String)
    → (scan_token_rotation cfg s within rotating ttl_sec now fresh).0.tasks ≡ s.tasks
unfolding scan_token_rotation
tasks-scan cfg s within true ttl_sec now fresh = tasks-rotate_all cfg s ttl_sec _ fresh 0
tasks-scan cfg s within false ttl_sec now fresh = refl
