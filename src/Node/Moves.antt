-- ===== src/Node/Moves.antt =====
-- The state machine of a task: what an operation may do to the tasks that are there.
use zen_claw.Base.{
  ℕ, ◌≡◌, refl, Bool, true, false, some, List, [], ◌∷◌, ◌++◌, arith, find_first, update_first,
  Bool-cases, inl, inr,
}
use zen_claw.Node.Data.{
  Status, pending_approval, pending, leased, running, done, error, rejected, Task, Store, Config,
  Codec, is_active, is_pending, is_pending_approval,
}
use zen_claw.Node.Queue.{may_ack, finish}
use zen_claw.Node.Approvals.{approve, reject, expire, is_overdue, reached}
use zen_claw.Node.Machine.{Operation, step}
use zen_claw.Node.Steps.{step-Change}
use zen_claw.Node.Changes.{
  Edit, leasing, finishing, approving, rejecting, Sweep, nil, kept, expired, Change, same, edit,
  added, swept,
}

-- The edges of the state machine. A completion leads from every state to `done` or `error`.
unfoldable pub may_follow : Status → Status → Bool
may_follow _ done = true
may_follow _ error = true
may_follow pending_approval pending_approval = true
may_follow pending_approval pending = true
may_follow pending_approval rejected = true
may_follow pending pending = true
may_follow pending leased = true
may_follow pending running = true
may_follow pending rejected = true
may_follow leased leased = true
may_follow leased running = true
may_follow running running = true
may_follow rejected rejected = true
may_follow _ _ = false

pub record Follows (x y : Task) : Type 0 where
  pub task_id : x.task_id ≡ y.task_id
  pub node_id : x.node_id ≡ y.node_id
  pub task_type : x.task_type ≡ y.task_type
  pub payload : x.payload ≡ y.payload
  pub idempotency_key : x.idempotency_key ≡ y.idempotency_key
  pub edge : may_follow x.status y.status ≡ true

-- Each task of the first list stands at its place in the second, after an edge of the machine; new
-- tasks may stand behind them.
abbrev pub Evolves : List Task → List Task → Type 0
Evolves [] ys = Unit
Evolves (x ∷ xs) [] = ⊥
Evolves (x ∷ xs) (y ∷ ys) = Follows x y × Evolves xs ys

may_follow_self : (x : Status) → may_follow x x ≡ true
unfolding may_follow
may_follow_self x = ground arith

Follows-refl : (x : Task) → Follows x x
Follows-refl x = record {
  task_id = refl;
  node_id = refl;
  task_type = refl;
  payload = refl;
  idempotency_key = refl;
  edge = may_follow_self x.status;
}

Evolves-append : (xs ys : List Task) → Evolves xs (xs ++ ys)
Evolves-append [] ys = tt
Evolves-append (x ∷ xs) ys = (Follows-refl x, Evolves-append xs ys)

Evolves-refl : (xs : List Task) → Evolves xs xs
Evolves-refl [] = tt
Evolves-refl (x ∷ xs) = (Follows-refl x, Evolves-refl xs)

Evolves-update_first :
    (p : Task → Bool) (f : Task → Task) (xs : List Task) (x : Task)
    → find_first p xs ≡ some x
    → Follows x (f x)
    → Evolves xs (update_first p f xs)
unfolding find_first update_first
Evolves-update_first p f [] x found h = tt
Evolves-update_first p f (y ∷ ys) x found h = elim (Bool-cases (p y)) [
  | inl e ↦ rw e (ground (arith, e, found, h), Evolves-refl ys)
  | inr e ↦ rw e (Follows-refl y, Evolves-update_first p f ys x (rw e at found) h)
]

Edit-Follows : (x y : Task) → Edit x y → Follows x y
unfolding may_follow may_ack approve reached reject finish is_active is_pending_approval is_pending
Edit-Follows x y (leasing status worker now m active) = ground arith
Edit-Follows x y (finishing ok result err now) = ground arith
Edit-Follows x y (rejecting by reason a now w) = ground arith
Edit-Follows x y (approving actor note a now w clean solid) = ground arith

Sweep-Evolves : (now : ℕ) {xs ys : List Task} → Sweep now xs ys → Evolves xs ys
unfolding expire may_follow is_overdue is_pending_approval
Sweep-Evolves now nil = tt
Sweep-Evolves now (kept x r) = (Follows-refl x, Sweep-Evolves now r)
Sweep-Evolves now (expired x due r) = (ground arith, Sweep-Evolves now r)

Change-Evolves : (xs ys : List Task) → Change xs ys → Evolves xs ys
Change-Evolves xs ys (same e) = rw e (Evolves-refl xs)
Change-Evolves xs ys (edit p f x found e eq) =
    rw eq (Evolves-update_first p f xs x found (Edit-Follows x (f x) e))
Change-Evolves xs ys (added policy r b e) = rw e (Evolves-append xs _)
Change-Evolves xs ys (swept now r) = Sweep-Evolves now r

-- No operation of the service, in any store, drops or moves a task or changes its identifier, node,
-- type, payload or idempotency key, and every change of a task's status is an edge of `may_follow`.
pub step-Evolves :
    (cfg : Config) (codec : Codec) (s : Store) (o : Operation)
    → Evolves s.tasks (step cfg codec s o).tasks
step-Evolves cfg codec s o =
    Change-Evolves s.tasks (step cfg codec s o).tasks (step-Change cfg codec s o)
