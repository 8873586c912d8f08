-- ===== src/Routing/Rollback.antt =====
-- `soft_rollback_on_error` of zen_claw/channels/routing.py after a switch of agents.
use zen_claw.Base.{
  ℕ, ◌+◌, ◌≤◌, String, ◌≡◌, refl, Bool, true, false, some, List, [], ◌∷◌, ◌++◌, ◌==◌, arith, keep,
  All, ap, ◌∙◌, if◌then◌else◌,
}
use mathlib.Core.List.{append_assoc}
use zen_claw.Base.Int.{ℤ, max_one}
use zen_claw.Base.Dict.{get, get-put}
use zen_claw.Base.Text.{strip}
use zen_claw.Routing.Store.{
  AgentRoute, AuditRow, RouteStore, Address, make_route_key, agent_of, route_for, audit_row,
  is_stale, write_route, is_recent_switch, latest, soft_rollback_on_error,
}
use text.Mathlib.TextPositions.{eq_refl}

latest-keep-append :
    (p : AuditRow → Bool) (rows : List AuditRow) (row : AuditRow)
    → p row ≡ true
    → All (λ r. r.at_ms ≤ row.at_ms) rows
    → latest (keep p (rows ++ row ∷ [])) ≡ some row
unfolding latest keep
latest-keep-append p [] row h bound = rw h refl
latest-keep-append p (r ∷ rs) row h bound =
    ground (arith, bound.0, latest-keep-append p rs row h bound.1)

-- the write of a switch that is not stale, and the rollback's, seen from the route table
write_fresh :
    (s : RouteStore) (key : String) (a : Address) (agent reason : String) (now : ℕ)
    → is_stale (get s.routes key) now ≡ false
    → (get (write_route s key a agent reason now).0.routes key ≡ some (route_for key a agent now))
      × ((write_route s key a agent reason now).1 ≡ route_for key a agent now)
      × ((write_route s key a agent reason now).0.audit
          ≡ s.audit ++ audit_row key (agent_of (get s.routes key)) agent reason now ∷ [])
      × ((other : String)
          → get (write_route s key a agent reason now).0.routes other
            ≡ (if key == other then some (route_for key a agent now) else get s.routes other))
unfolding write_route
write_fresh s key a agent reason now h = rw h (
  rw get-put (rw (eq_refl key)),
  refl,
  refl,
  λ other. get-put s.routes key other (route_for key a agent now),
)

-- a write over a write
overwritten {ℓ} :
    {A : Type ℓ} (b : Bool) (x y z : A)
    → (if b then x else (if b then y else z)) ≡ (if b then x else z)
overwritten true x y z = refl
overwritten false x y z = refl

rollback_found :
    (s : RouteStore) (a : Address) (key current : String) (grace : ℤ) (now : ℕ) (row : AuditRow)
    → make_route_key a ≡ some key
    → latest (keep (is_recent_switch key (strip current) (max_one grace) now) s.audit) ≡ some row
    → (strip row.previous_agent_id == "") ≡ false
    → soft_rollback_on_error s a current grace now
      ≡ some (
        (write_route s key a (strip row.previous_agent_id) "soft_rollback" now).0,
        some (write_route s key a (strip row.previous_agent_id) "soft_rollback" now).1,
      )
unfolding soft_rollback_on_error
rollback_found s a key current grace now row k found solid =
    rw (k, soft_rollback_on_error) (rw (found, soft_rollback_on_error) (rw solid refl))

-- If a user is switched from one agent to another, at a time no earlier than all that the audit trail
-- records, then a rollback that names the new agent, not before the switch and within the grace
-- period, binds the user to the first agent again: the route table and the route returned have that
-- agent, every other key of the table is as it was before the switch, and the audit trail has gained
-- the switch and the rollback, in that order.
pub rollback-write_route :
    (s : RouteStore) (a : Address) (key agent reason : String) (grace : ℤ) (switched now : ℕ)
    (old : AgentRoute)
    → make_route_key a ≡ some key
    → get s.routes key ≡ some old
    → strip old.agent_id ≡ old.agent_id
    → (old.agent_id == "") ≡ false
    → old.updated_at_ms ≤ switched
    → All (λ r. r.at_ms ≤ switched) s.audit
    → switched ≤ now
    → now ≤ switched + max_one grace
    → let s₁ = (write_route s key a (strip agent) reason switched).0 in
      let s₂ = (write_route s₁ key a old.agent_id "soft_rollback" now).0 in
      (soft_rollback_on_error s₁ a agent grace now
        ≡ some (s₂, some (route_for key a old.agent_id now)))
      × (get s₂.routes key ≡ some (route_for key a old.agent_id now))
      × ((other : String)
          → get s₂.routes other ≡ (
              if key == other then some (route_for key a old.agent_id now) else get s.routes other))
      × (s₂.audit
          ≡ s.audit
            ++ audit_row key old.agent_id (strip agent) reason switched
              ∷ audit_row key (strip agent) old.agent_id "soft_rollback" now
              ∷ [])
rollback-write_route s a key agent reason grace switched now old k found clean solid order audit
      later_now within =
    let s₁ = (write_route s key a (strip agent) reason switched).0 in
    let (bound, route, log, others) =
      write_fresh s key a (strip agent) reason switched
        (rw found (unfold is_stale in ground (arith, order))) in
    let (bound₂, route₂, log₂, others₂) =
      write_fresh s₁ key a old.agent_id "soft_rollback" now
        (rw bound (unfold is_stale in ground (arith, later_now))) in
    let row = audit_row key old.agent_id (strip agent) reason switched in
    let test : is_recent_switch key (strip agent) (max_one grace) now row ≡ true =
      unfold is_recent_switch in
      ground (arith, solid, within, eq_refl key, eq_refl (strip agent)) in
    let best : latest (keep (is_recent_switch key (strip agent) (max_one grace) now) s₁.audit)
        ≡ some row =
      rw (log, found)
        (latest-keep-append (is_recent_switch key (strip agent) (max_one grace) now) s.audit row
          test audit) in
    (
      rollback_found s₁ a key agent grace now row k best (rw clean solid)
          ∙ rw clean (
              ap (λ r. some ((write_route s₁ key a old.agent_id "soft_rollback" now).0, some r))
                route₂),
      bound₂,
      λ other. others₂ other ∙ rw (others other) (overwritten (key == other) _ _ _),
      log₂ ∙ rw (log, bound, found) (append_assoc s.audit (row ∷ []) _),
    )
