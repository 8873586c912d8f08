-- ===== src/Node/Machine.antt =====
-- The operations of `NodeService` that change its store, as one step function, and runs of them.
use zen_claw.Base.{ℕ, String, Bool, Option, List, [], ◌∷◌}
use zen_claw.Base.Int.{ℤ}
use zen_claw.Node.Payload.{Payload}
use zen_claw.Node.Data.{Store, Config, Codec}
use zen_claw.Node.Tokens.{register_node, rotate_token, revoke_token, scan_token_rotation, heartbeat}
use zen_claw.Node.Policies.{PolicyUpdate, update_policy}
use zen_claw.Node.Submit.{Request, add_task}
use zen_claw.Node.Queue.{
  pull_task, ack_task, complete_task, complete_task_system, claim_next_gateway_task,
}
use zen_claw.Node.Approvals.{Stamp, approve_task, reject_task, expire_pending_approvals}

-- An operation with its arguments, the identifiers that it draws and what its clock shows.
pub data Operation : Type 0 where
  register :
      (name platform : String) (capabilities : List String) (node_id token : String) (now : ℕ)
      → Operation
  rotate : (node_id : String) (ttl_sec : Option ℤ) (now : ℕ) (token : String) → Operation
  revoke : (node_id : String) (now : ℕ) → Operation
  scan :
      (within_sec : ℤ) (rotating : Bool) (ttl_sec : Option ℤ) (now : ℕ) (fresh : ℕ → ℕ × String)
      → Operation
  beat : (node_id token : String) (auth_ms seen_ms now : ℕ) → Operation
  set_policy : (node_id : String) (update : PolicyUpdate) (now : ℕ) → Operation
  submit : Request → Operation
  pull : (node_id token : String) (auth_ms now : ℕ) → Operation
  ack : (node_id token task_id : String) (auth_ms now : ℕ) → Operation
  complete :
      (node_id token task_id : String) (ok : Bool) (result : Option Payload) (err : Option String)
      (auth_ms now : ℕ)
      → Operation
  complete_system :
      (task_id : String) (ok : Bool) (result : Option Payload) (err : Option String) (now : ℕ)
      → Operation
  claim : (worker_id : String) (now : ℕ) → Operation
  approving : (task_id approved_by note : String) (approved_ms now : ℕ) (stamp : Stamp) → Operation
  rejecting :
      (task_id rejected_by reason : String) (rejected_ms now : ℕ) (stamp : Stamp) → Operation
  expiring : (now : ℕ) (stamp : ℕ → Stamp) → Operation

module _ (cfg : Config) (codec : Codec) where
  unfoldable pub step : Store → Operation → Store
  step s (register name platform capabilities node_id token now) =
      (register_node cfg s name platform capabilities node_id token now).0
  step s (rotate node_id ttl_sec now token) = (rotate_token cfg s node_id ttl_sec now token).0
  step s (revoke node_id now) = (revoke_token s node_id now).0
  step s (scan within_sec rotating ttl_sec now fresh) =
      (scan_token_rotation cfg s within_sec rotating ttl_sec now fresh).0
  step s (beat node_id token auth_ms seen_ms now) =
      (heartbeat s node_id token auth_ms seen_ms now).0
  step s (set_policy node_id update now) = (update_policy s node_id update now).0
  step s (submit r) = (add_task cfg codec s r).0
  step s (pull node_id token auth_ms now) = (pull_task s node_id token auth_ms now).0
  step s (ack node_id token task_id auth_ms now) = (ack_task s node_id token task_id auth_ms now).0
  step s (complete node_id token task_id ok result err auth_ms now) =
      (complete_task codec s node_id token task_id ok result err auth_ms now).0
  step s (complete_system task_id ok result err now) =
      (complete_task_system s task_id ok result err now).0
  step s (claim worker_id now) = (claim_next_gateway_task s worker_id now).0
  step s (approving task_id approved_by note approved_ms now stamp) =
      (approve_task cfg codec s task_id approved_by note approved_ms now stamp).0
  step s (rejecting task_id rejected_by reason rejected_ms now stamp) =
      (reject_task cfg codec s task_id rejected_by reason rejected_ms now stamp).0
  step s (expiring now stamp) = (expire_pending_approvals cfg codec s now stamp).0

  unfoldable pub run : Store → List Operation → Store
  run s [] = s
  run s (o ∷ os) = run (step s o) os

  pub run_induction {ℓ} :
      (P : Store → Type ℓ)
      → ((s : Store) (o : Operation) → P s → P (step s o))
      → (s : Store) (os : List Operation) → P s
      → P (run s os)
  unfolding run
  run_induction P keeps s [] h = h
  run_induction P keeps s (o ∷ os) h = run_induction P keeps (step s o) os (keeps s o h)
