-- ===== src/Node/Quorum.antt =====
-- No task is pending, leased or running without the approvals that its node's policy asked for.
use zen_claw.Base.{
  ℕ, ◌≤◌, String, ◌≡◌, Bool, true, false, List, [], ◌∷◌, ◌++◌, arith, ◌==◌, length, All, All-append,
  All-update_found, Bool-cases, inl, inr,
}
use mathlib.Core.List.{map-append}
use zen_claw.Base.Text.{strip}
use zen_claw.Base.Sets.{contains, add, add_nonempty, add_nonempty-append}
use zen_claw.Node.Data.{
  Status, pending, leased, running, Task, Config, Codec, empty, is_pending_approval, is_active,
  Policy,
}
use zen_claw.Node.Queue.{may_ack, finish}
use zen_claw.Node.Submit.{Request, make_task}
use zen_claw.Node.Machine.{Operation, step, run, run_induction}
use zen_claw.Node.Steps.{step-Change}
use zen_claw.Node.Changes.{
  Edit, leasing, finishing, approving, rejecting, Sweep, nil, kept, expired, Change, same, edit,
  added, swept,
}
use zen_claw.Node.Approvals.{approver_set, approved_list, reached, approve, reject, expire}

-- A task that a worker may get, or has.
unfoldable pub is_released : Status → Bool
is_released pending = true
is_released leased = true
is_released running = true
is_released _ = false

-- If the task needs approval and is released, at least `required_count` different people approved it.
pub record IsQuorate (t : Task) : Type 0 where
  pub one : 1 ≤ t.approval.required_count
  pub enough :
      t.approval.required ≡ true
      → is_released t.status ≡ true
      → t.approval.required_count ≤ length (approver_set t.approval.approvals)

approver_set-append :
    (xs : List String) (actor : String)
    → strip actor ≡ actor
    → (actor == "") ≡ false
    → approver_set (xs ++ actor ∷ []) ≡ add actor (approver_set xs)
unfolding approver_set add_nonempty
approver_set-append xs actor clean solid = rw (map-append, add_nonempty-append, clean) (rw solid)

-- what is stored counts to what `approve_task` counted
approver_set-approved_list :
    (t : Task) (actor : String)
    → strip actor ≡ actor
    → (actor == "") ≡ false
    → approver_set (approved_list t actor) ≡ add actor (approver_set t.approval.approvals)
unfolding approved_list
approver_set-approved_list t actor clean solid =
    elim (Bool-cases (contains actor (approver_set t.approval.approvals))) [
      | inl e ↦ rw e (unfold add in rw e)
      | inr e ↦ rw e (approver_set-append t.approval.approvals actor clean solid)
    ]

Edit-IsQuorate : (x y : Task) → Edit x y → IsQuorate x → IsQuorate y
unfolding is_released may_ack approve reached reject finish is_active is_pending_approval
Edit-IsQuorate x y (leasing status worker now m active) q = ground arith
Edit-IsQuorate x y (finishing ok result err now) q = ground arith
Edit-IsQuorate x y (rejecting by reason a now w) q = ground arith
Edit-IsQuorate x y (approving actor note a now w clean solid) q =
    ground (arith, approver_set-approved_list x actor clean solid)

make_task-IsQuorate : (policy : Policy) (r : Request) (b : Bool) → IsQuorate (make_task policy r b)
unfolding make_task is_released
make_task-IsQuorate policy r b = ground arith

Sweep-IsQuorate :
    (now : ℕ) {xs ys : List Task} → Sweep now xs ys → All IsQuorate xs → All IsQuorate ys
unfolding expire is_released
Sweep-IsQuorate now nil h = tt
Sweep-IsQuorate now (kept x r) h = (h.0, Sweep-IsQuorate now r h.1)
Sweep-IsQuorate now (expired x due r) h = (ground (arith, h.0), Sweep-IsQuorate now r h.1)

Change-IsQuorate : (xs ys : List Task) → Change xs ys → All IsQuorate xs → All IsQuorate ys
Change-IsQuorate xs ys (same e) h = rw e h
Change-IsQuorate xs ys (edit p f x found e eq) h =
    rw eq (All-update_found IsQuorate p f xs x found (Edit-IsQuorate x (f x) e) h)
Change-IsQuorate xs ys (added policy r b e) h =
    rw e (All-append IsQuorate xs _ h (make_task-IsQuorate policy r b, tt))
Change-IsQuorate xs ys (swept now r) h = Sweep-IsQuorate now r h

-- In every store that operations of the service reach from the empty one, each task that needs
-- approval and is pending, leased or running has been approved by at least `required_count`, and at
-- least one, different people whose names are not blank.
pub run-IsQuorate :
    (cfg : Config) (codec : Codec) (os : List Operation)
    → All IsQuorate (run cfg codec empty os).tasks
run-IsQuorate cfg codec os =
    run_induction cfg codec (λ s. All IsQuorate s.tasks)
      (λ s o. Change-IsQuorate s.tasks (step cfg codec s o).tasks (step-Change cfg codec s o)) empty
      os tt
