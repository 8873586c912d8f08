-- ===== src/Node/Events.antt =====
-- The approval events of zen_claw/node/service.py: a chain of hashes, each over the event and the
-- hash before it. The append-only log file and the immutable copies are not modelled.
use zen_claw.Base.{
  ℕ, suc, ◌-◌, String, Bool, true, false, Option, none, some, List, [], ◌∷◌, ◌++◌, ◌==◌, ltb, leb,
  length, drop, keep, if◌then◌else◌,
}
use zen_claw.Base.Text.{norm, strip}
use zen_claw.Node.Data.{BaseEvent, Event, Config, Codec}

-- `str(events[-1].get("hash") or "")`, and the empty text for no event
unfoldable pub last_hash : List Event → String
last_hash [] = ""
last_hash (e ∷ []) = e.hash
last_hash (e ∷ f ∷ es) = last_hash (f ∷ es)

-- `if self.audit_secret`
unfoldable pub sign : Config → Codec → BaseEvent → String × String
sign cfg codec base =
    if cfg.audit_secret == ""
    then (codec.sha256 base, "sha256")
    else (codec.hmac cfg.audit_secret base, "hmac-sha256")

-- `events[-2000:]` of a list with more than 2000 events
unfoldable pub trim_events : List Event → List Event
trim_events events = if ltb 2000 (length events) then drop (length events - 2000) events else events

-- The arguments of `_append_approval_event`, with the identifier that it draws and its clock.
pub record NewEvent : Type 0 where
  pub event_id : String
  pub task_id : String
  pub node_id : String
  pub action : String
  pub actor : String
  pub note : String
  pub trace_id : String
  pub at_ms : ℕ

unfoldable pub make_event : Config → Codec → List Event → NewEvent → Event
unfolding sign
make_event cfg codec events n =
    let base : BaseEvent = record {
      event_id = n.event_id;
      task_id = n.task_id;
      node_id = n.node_id;
      action = norm n.action;
      actor = strip n.actor;
      note = n.note;
      at_ms = n.at_ms;
      prev_hash = last_hash events;
    } in
    record {
      base = base;
      hash = codec.sha256 base;
      signature = (sign cfg codec base).0;
      signature_alg = (sign cfg codec base).1;
      trace_id = n.trace_id;
    }

-- `_append_approval_event`
unfoldable pub append_event : Config → Codec → List Event → NewEvent → List Event
append_event cfg codec events n = trim_events (events ++ make_event cfg codec events n ∷ [])

unfoldable pub insert_by_time : Event → List Event → List Event
insert_by_time e [] = e ∷ []
insert_by_time e (f ∷ fs) =
    if leb e.base.at_ms f.base.at_ms then e ∷ f ∷ fs else f ∷ insert_by_time e fs

-- `sorted(out, key=at_ms)`, which is stable
unfoldable pub sort_by_time : List Event → List Event
sort_by_time [] = []
sort_by_time (e ∷ es) = insert_by_time e (sort_by_time es)

-- `wanted and row[k] != wanted` of an optional filter
abbrev passes : Option String → String → Bool
passes none v = true
passes (some wanted) v = if wanted == "" then true else v == wanted

unfoldable pub list_approval_events : List Event → Option String → Option String → List Event
list_approval_events events node_id task_id = sort_by_time (
    keep (λ e. if passes node_id e.base.node_id then passes task_id e.base.task_id else false)
      events)

pub data Verdict : Type 0 where
  valid : (checked : ℕ) → Verdict
  chain_broken hash_mismatch signature_mismatch : (checked : ℕ) → Verdict

-- The loop of `verify_approval_events`; the index of the row is the number checked so far.
unfoldable pub verify_from : Config → Codec → String → ℕ → List Event → Verdict
verify_from cfg codec prev_hash checked [] = valid checked
verify_from cfg codec prev_hash checked (row ∷ rows) =
    let expected = codec.sha256 row.base in
    let rest = verify_from cfg codec expected (suc checked) rows in
    if row.base.prev_hash == prev_hash
    then if row.hash == expected
      then if cfg.audit_secret == ""
        then rest
        else if row.signature == codec.hmac cfg.audit_secret row.base
        then rest
        else signature_mismatch checked
      else hash_mismatch checked
    else chain_broken checked

unfoldable pub verify_approval_events : Config → Codec → List Event → Verdict
verify_approval_events cfg codec events =
    verify_from cfg codec "" 0 (list_approval_events events none none)
