-- ===== src/Routing/Bulk.antt =====
-- `list_routes`, `clear_routes_by` and `gc_expired_routes` of zen_claw/channels/routing.py.
use zen_claw.Base.{
  ℕ, ◌+◌, String, Bool, true, false, ◌&&◌, Option, none, some, List, [], ◌∷◌, ◌++◌, ◌-◌, ◌==◌, ltb,
  leb, length, keep, take, drop, if◌then◌else◌,
}
use zen_claw.Base.Int.{ℤ, pos, negsuc, max_zero, max_one}
use zen_claw.Base.Dict.{Dict, remove, values}
use zen_claw.Base.Text.{norm, strip}
use zen_claw.Routing.Store.{AgentRoute, RouteStore, audit_row}

-- `max(1, min(int(limit), 200))`
unfoldable pub bounded_limit : ℤ → ℕ
bounded_limit (pos n) = if leb 200 n then 200 else if leb 1 n then n else 1
bounded_limit (negsuc n) = 1

-- the WHERE clause; an empty filter is left out
unfoldable pub matches_filter : String → String → AgentRoute → Bool
matches_filter channel agent r =
    (if channel == "" then true else r.channel == channel)
    && (if agent == "" then true else r.agent_id == agent)

unfoldable pub insert_route : AgentRoute → List AgentRoute → List AgentRoute
insert_route r [] = r ∷ []
insert_route r (q ∷ qs) =
    if leb q.updated_at_ms r.updated_at_ms then r ∷ q ∷ qs else q ∷ insert_route r qs

-- `ORDER BY updated_at_ms DESC`
unfoldable pub sort_routes : List AgentRoute → List AgentRoute
sort_routes [] = []
sort_routes (r ∷ rs) = insert_route r (sort_routes rs)

unfoldable pub list_routes : RouteStore → String → String → ℤ → ℤ → List AgentRoute
list_routes s channel agent_id limit offset = take (bounded_limit limit) (
    drop (max_zero offset)
      (sort_routes (keep (matches_filter (norm channel) (strip agent_id)) (values s.routes))))

abbrev pub or_bulk_clear : String → String
or_bulk_clear reason = if reason == "" then "bulk_clear" else reason

-- the loop of `clear_routes_by`
unfoldable pub clear_all : RouteStore → List AgentRoute → String → ℕ → RouteStore
clear_all s [] reason now = s
clear_all s (r ∷ rs) reason now =
    clear_all
      (record {
        routes = remove s.routes r.route_key;
        audit = s.audit ++ audit_row r.route_key r.agent_id "" reason now ∷ [];
      })
      rs reason now

pub record BulkReport : Type 0 where
  pub cleared : ℕ
  pub preview : List AgentRoute
  pub dry_run : Bool

unfoldable pub clear_routes_by :
    RouteStore → String → String → String → Bool → ℕ → Option (RouteStore × BulkReport)
clear_routes_by s channel agent_id reason dry_run now =
    if norm channel == "" && (strip agent_id == "")
    then none
    else let matching = list_routes s (norm channel) (strip agent_id) (pos 200) (pos 0) in
      if dry_run
      then some (s, record { cleared = 0; preview = matching; dry_run = true })
      else some (
        clear_all s matching (or_bulk_clear reason) now,
        record { cleared = length matching; preview = []; dry_run = false },
      )

-- the routes that `DELETE ... WHERE updated_at_ms < now - ttl` leaves
unfoldable pub unexpired : ℕ → ℕ → Dict AgentRoute → Dict AgentRoute
unexpired ttl now [] = []
unexpired ttl now ((key, r) ∷ rest) =
    let left = unexpired ttl now rest in
    if ltb (r.updated_at_ms + ttl) now then left else (key, r) ∷ left

unfoldable pub gc_expired_routes : RouteStore → ℤ → ℕ → RouteStore × ℕ
gc_expired_routes s ttl_ms now =
    let left = unexpired (max_one ttl_ms) now s.routes in
    (record s { routes = left }, length s.routes - length left)
