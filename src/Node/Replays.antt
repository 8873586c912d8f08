-- ===== src/Node/Replays.antt =====
-- A request that is sent again under its idempotency key.
use zen_claw.Base.{
  ℕ, ◌-◌, ◌*◌, ◌≤◌, String, ◌≡◌, ◌≢◌, refl, Bool, true, false, ◌&&◌, none, some, List, [], ◌∷◌,
  ◌++◌, arith, ◌==◌, eq_iff, ltb, Bool-cases, Option-cases, inl, inr, ap, ◌∙◌,
}
use zen_claw.Base.Text.{norm, norm_idem, strip}
use zen_claw.Node.Payload.{payload_eq}
use zen_claw.Node.Data.{Policy, Task, Store, Config, Codec}
use zen_claw.Node.Policies.{
  get_node_policy, node_has_capability, required_capability_for_task, task_type_allowed,
}
use zen_claw.Node.Submit.{
  Request, created, deduplicated, is_replay, replay, find_replay, required_capability, make_task,
  create_task, check_task, add_task,
}

-- The same request again, with identifiers and clock of its own.
unfoldable pub again : Request → String → String → String → ℕ → ℕ → ℕ → ℕ → Request
again r task_id trace_id event_id replay_ms created_ms deadline_ms event_ms = record r {
  task_id = task_id;
  trace_id = trace_id;
  event_id = event_id;
  replay_ms = replay_ms;
  created_ms = created_ms;
  deadline_ms = deadline_ms;
  event_ms = event_ms;
}

-- a row that does not answer a request does not answer it later either
find_replay_later :
    (cfg : Config) (node_id idem : String) (now later : ℕ) (rows : List Task)
    → now ≤ later
    → find_replay cfg node_id idem now rows ≡ none
    → find_replay cfg node_id idem later rows ≡ none
unfolding find_replay is_replay
find_replay_later cfg node_id idem now later [] h e = refl
find_replay_later cfg node_id idem now later (x ∷ xs) h e =
    ground (arith, find_replay_later cfg node_id idem now later xs h)

find_replay-append :
    (cfg : Config) (node_id idem : String) (now : ℕ) (rows : List Task) (x : Task)
    → find_replay cfg node_id idem now rows ≡ none
    → is_replay cfg node_id idem now x ≡ true
    → find_replay cfg node_id idem now (rows ++ x ∷ []) ≡ some x
unfolding find_replay
find_replay-append cfg node_id idem now [] x e m = rw m
find_replay-append cfg node_id idem now (y ∷ ys) x e m =
    ground (arith, find_replay-append cfg node_id idem now ys x)

norm_constants :
    (norm "notify" ≡ "notify")
    × (norm "browser" ≡ "browser")
    × (norm "camera" ≡ "camera")
    × (norm "" ≡ "")
unfolding norm
norm_constants = (refl, refl, refl, refl)

capability_for-norm :
    (t : String) → norm (required_capability_for_task t) ≡ required_capability_for_task t
unfolding required_capability_for_task
capability_for-norm t = ground (arith, norm_constants)

required_capability-norm : (r : Request) → norm (required_capability r) ≡ required_capability r
unfolding required_capability
required_capability-norm r = elim (Bool-cases (norm r.required_capability == "")) [
  | inl e ↦ rw e (capability_for-norm (norm r.task_type))
  | inr e ↦ rw e (norm_idem r.required_capability)
]

check_task_refuses :
    (codec : Codec) (s : Store) (r : Request) (t : Task) → check_task codec s r ≢ some (created t)
unfolding check_task
check_task_refuses codec s r t = ground arith

-- what a creation tells of the checks
created_cases :
    (cfg : Config) (codec : Codec) (s : Store) (r : Request) (t : Task)
    → (strip r.idempotency_key == "") ≡ false
    → (add_task cfg codec s r).1 ≡ created t
    → (check_task codec s r ≡ none)
      × (find_replay cfg r.node_id (strip r.idempotency_key) r.replay_ms s.tasks ≡ none)
unfolding add_task replay
created_cases cfg codec s r t k h = elim (Option-cases (check_task codec s r)) [
  | inr (x, e) ↦ absurd (check_task_refuses codec s r t (ground (arith, e)))
  | inl e ↦
      elim (Option-cases
        (find_replay cfg r.node_id (strip r.idempotency_key) r.replay_ms s.tasks)) [
          | inl f ↦ (e, f)
          | inr (x, f) ↦ ground (arith, e, f)
        ]
]

add_task_created :
    (cfg : Config) (codec : Codec) (s : Store) (r : Request)
    → (strip r.idempotency_key == "") ≡ false
    → check_task codec s r ≡ none
    → find_replay cfg r.node_id (strip r.idempotency_key) r.replay_ms s.tasks ≡ none
    → add_task cfg codec s r ≡ create_task cfg codec s r
unfolding add_task
add_task_created cfg codec s r k e f = rw (e, add_task) (rw (k, f))

add_task_answered :
    (cfg : Config) (codec : Codec) (s : Store) (r : Request) (row : Task)
    → (strip r.idempotency_key == "") ≡ false
    → check_task codec s r ≡ none
    → find_replay cfg r.node_id (strip r.idempotency_key) r.replay_ms s.tasks ≡ some row
    → add_task cfg codec s r ≡ (
      s,
      replay (strip r.idempotency_key) (norm r.task_type) r.payload (required_capability r) row,
    )
unfolding add_task
add_task_answered cfg codec s r row k e f = rw (e, add_task) (rw (k, f))

-- a creation leaves the nodes, and the checks look at nothing else
check_task-again :
    (cfg : Config) (codec : Codec) (s : Store) (r : Request) (task_id trace_id event_id : String)
    (replay_ms created_ms deadline_ms event_ms : ℕ)
    → check_task codec
        (create_task cfg codec s r).0
        (again r task_id trace_id event_id replay_ms created_ms deadline_ms event_ms)
      ≡ check_task codec s r
unfolding check_task create_task again required_capability get_node_policy node_has_capability
check_task-again cfg codec s r task_id trace_id event_id replay_ms created_ms deadline_ms event_ms =
    refl

abbrev policy_says : Store → Request → Bool
policy_says s r =
    task_type_allowed (norm r.task_type) (get_node_policy s r.node_id).require_approval_task_types

created_by :
    (cfg : Config) (codec : Codec) (s : Store) (r : Request)
    → (create_task cfg codec s r).1
      ≡ created (make_task (get_node_policy s r.node_id) r (policy_says s r))
unfolding create_task
created_by cfg codec s r = refl

-- The node's idempotency window, if it has one, is not over `later` for a task created `created_ms`.
abbrev pub IsWithinWindow : Config → ℕ → ℕ → Type 0
IsWithinWindow cfg created_ms later =
    (ltb 0 cfg.idempotency_window_sec
      && (ltb 0 created_ms && ltb (cfg.idempotency_window_sec * 1000) (later - created_ms)))
    ≡ false

replay_of_same :
    (cfg : Config) (policy : Policy) (r : Request) (b : Bool) (later : ℕ)
    → payload_eq r.payload r.payload ≡ true
    → IsWithinWindow cfg r.created_ms later
    → (is_replay cfg r.node_id (strip r.idempotency_key) later (make_task policy r b) ≡ true)
      × (replay
            (strip r.idempotency_key)
            (norm r.task_type)
            r.payload
            (required_capability r)
            (make_task policy r b)
          ≡ deduplicated (make_task policy r b))
unfolding is_replay replay make_task
replay_of_same cfg policy r b later p w = ground (
  arith,
  p,
  w,
  norm_idem r.task_type,
  required_capability-norm r,
  eq_iff r.node_id r.node_id,
  eq_iff (strip r.idempotency_key) (strip r.idempotency_key),
  eq_iff (norm r.task_type) (norm r.task_type),
  eq_iff (required_capability r) (required_capability r),
)

-- When a request with a key that is not blank has created a task, the same request sent again, not
-- before it and within the idempotency window, creates nothing: it is answered with that task and
-- leaves the store as the first request left it. (Its payload is equal to itself, as every JSON
-- object with different keys is.)
pub add_task-again :
    (cfg : Config) (codec : Codec) (s : Store) (r : Request) (t : Task)
    (task_id trace_id event_id : String) (replay_ms created_ms deadline_ms event_ms : ℕ)
    → (strip r.idempotency_key == "") ≡ false
    → (add_task cfg codec s r).1 ≡ created t
    → payload_eq r.payload r.payload ≡ true
    → r.replay_ms ≤ replay_ms
    → IsWithinWindow cfg r.created_ms replay_ms
    → add_task cfg codec
        (add_task cfg codec s r).0
        (again r task_id trace_id event_id replay_ms created_ms deadline_ms event_ms)
      ≡ ((add_task cfg codec s r).0, deduplicated t)
unfolding again required_capability
add_task-again cfg codec s r t task_id trace_id event_id replay_ms created_ms deadline_ms event_ms k
      h p later w =
    let (checks, fresh) = created_cases cfg codec s r t k h in
    let first = add_task_created cfg codec s r k checks fresh in
    let policy = get_node_policy s r.node_id in
    let x = make_task policy r (policy_says s r) in
    let (answers, same) = replay_of_same cfg policy r (policy_says s r) replay_ms p w in
    let found : find_replay cfg r.node_id (strip r.idempotency_key) replay_ms
          (create_task cfg codec s r).0.tasks
        ≡ some x =
      unfold create_task in
      find_replay-append cfg r.node_id (strip r.idempotency_key) replay_ms s.tasks x
        (find_replay_later cfg r.node_id (strip r.idempotency_key) r.replay_ms replay_ms s.tasks
          later fresh)
        answers in
    let is_t : x ≡ t = cc (created_by cfg codec s r, ap (λ q. q.1) first, h) in
    rw first (
      add_task_answered cfg codec (create_task cfg codec s r).0
        (again r task_id trace_id event_id replay_ms created_ms deadline_ms event_ms) x k
        (check_task-again cfg codec s r task_id trace_id event_id replay_ms created_ms deadline_ms
            event_ms
          ∙ checks)
        found
      ∙ ap (λ y. ((create_task cfg codec s r).0, y)) (same ∙ ap deduplicated is_t))
