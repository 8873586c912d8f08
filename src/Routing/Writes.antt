-- ===== src/Routing/Writes.antt =====
-- The last write wins: what `set_route` of zen_claw/channels/routing.py does to a binding.
use zen_claw.Base.{
  ℕ, ◌+◌, ◌≤◌, ◌<◌, String, ◌≡◌, false, some, [], ◌∷◌, ◌==◌, arith, length, length-append,
  Bool-cases, inl, inr, if◌then◌else◌,
}
use zen_claw.Base.Dict.{get, get-put}
use zen_claw.Routing.Store.{
  RouteStore, Address, agent_of, updated_of, route_for, audit_row, is_stale, write_route,
}
use text.Mathlib.TextPositions.{eq_refl}

get-write_route :
    (s : RouteStore) (key j : String) (a : Address) (agent reason : String) (now : ℕ)
    → get (write_route s key a agent reason now).0.routes j ≡ (
        if is_stale (get s.routes key) now
        then get s.routes j
        else if key == j
        then some (route_for key a agent now)
        else get s.routes j)
unfolding write_route
get-write_route s key j a agent reason now = elim (Bool-cases (is_stale (get s.routes key) now)) [
  | inl e ↦ rw e
  | inr e ↦ rw e (rw get-put)
]

-- Two writes to one binding at different times leave the same binding in whatever order they arrive,
-- and it is as new as the later of them at least.
pub write_route_order :
    (s : RouteStore) (key : String) (a b : Address) (first second why because : String) (t u : ℕ)
    → t < u
    → (get (write_route (write_route s key a first why t).0 key b second because u).0.routes key
        ≡ get (write_route (write_route s key b second because u).0 key a first why t).0.routes key)
      × (u
          ≤ updated_of (
              get
                (write_route (write_route s key a first why t).0 key b second because u).0.routes
                key))
unfolding is_stale
write_route_order s key a b first second why because t u h =
    let w₁ = (write_route s key a first why t).0 in
    let w₂ = (write_route s key b second because u).0 in
    ground (
      arith,
      h,
      eq_refl key,
      get-write_route s key key a first why t,
      get-write_route s key key b second because u,
      get-write_route w₁ key key b second because u,
      get-write_route w₂ key key a first why t,
    )

-- A write never moves a binding back in time, leaves the bindings of all other users as they are,
-- and adds one row to the audit trail, if it is skipped as stale too.
pub write_route_later :
    (s : RouteStore) (key : String) (a : Address) (agent reason : String) (now : ℕ)
    → (updated_of (get s.routes key)
        ≤ updated_of (get (write_route s key a agent reason now).0.routes key))
      × ((j : String)
          → (key == j) ≡ false
          → get (write_route s key a agent reason now).0.routes j ≡ get s.routes j)
      × (length (write_route s key a agent reason now).0.audit ≡ length s.audit + 1)
unfolding is_stale
write_route_later s key a agent reason now = (
  ground (arith, eq_refl key, get-write_route s key key a agent reason now),
  λ j other. ground (arith, other, get-write_route s key j a agent reason now),
  unfold write_route in
      ground (
        arith,
        length-append s.audit (audit_row key (agent_of (get s.routes key)) agent reason now ∷ []),
      ),
)
