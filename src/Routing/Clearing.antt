-- ===== src/Routing/Clearing.antt =====
-- How much `clear_routes_by` of zen_claw/channels/routing.py clears.
use zen_claw.Base.{
  ℕ, suc, min, String, ◌≡◌, refl, Bool, false, none, some, List, [], ◌∷◌, ◌++◌, any, ◌==◌, arith,
  length, keep, count, length-take, length-keep, if◌then◌else◌,
}
use zen_claw.Base.Int.{pos, max_zero}
use zen_claw.Base.Dict.{values, get, remove, get-remove}
use zen_claw.Base.Text.{norm, norm_idem, strip, strip_idem}
use zen_claw.Routing.Store.{AgentRoute, RouteStore, audit_row}
use zen_claw.Routing.Bulk.{
  bounded_limit, matches_filter, insert_route, sort_routes, list_routes, BulkReport, or_bulk_clear,
  clear_all, clear_routes_by,
}

length-insert_route :
    (r : AgentRoute) (rs : List AgentRoute) → length (insert_route r rs) ≡ suc (length rs)
unfolding insert_route
length-insert_route r [] = refl
length-insert_route r (q ∷ qs) = ground (arith, length-insert_route r qs)

length-sort_routes : (rs : List AgentRoute) → length (sort_routes rs) ≡ length rs
unfolding sort_routes
length-sort_routes [] = refl
length-sort_routes (r ∷ rs) =
    ground (arith, length-insert_route r (sort_routes rs), length-sort_routes rs)

length-list_routes :
    (s : RouteStore) (channel agent_id : String)
    → length (list_routes s channel agent_id (pos 200) (pos 0))
      ≡ min 200 (count (matches_filter (norm channel) (strip agent_id)) (values s.routes))
unfolding list_routes max_zero bounded_limit
length-list_routes s channel agent_id =
    let found = keep (matches_filter (norm channel) (strip agent_id)) (values s.routes) in
    rw (length-take, length-sort_routes, length-keep) refl

unfoldable pub has_key : String → AgentRoute → Bool
has_key key r = r.route_key == key

get-clear_all :
    (s : RouteStore) (rs : List AgentRoute) (reason : String) (now : ℕ) (key : String)
    → get (clear_all s rs reason now).routes key
      ≡ (if any (has_key key) rs then none else get s.routes key)
unfolding clear_all any has_key
get-clear_all s [] reason now key = refl
get-clear_all s (r ∷ rs) reason now key =
    let s₁ : RouteStore = record {
      routes = remove s.routes r.route_key;
      audit = s.audit ++ audit_row r.route_key r.agent_id "" reason now ∷ [];
    } in
    ground (arith, get-clear_all s₁ rs reason now key, get-remove s.routes r.route_key key)

-- A bulk clear that is not a dry run and has a filter clears the routes that its filters list, and
-- no other, and counts all that match if they are at most 200, and 200 if more match.
pub clear_routes_by-count :
    (s s' : RouteStore) (channel agent_id reason : String) (now : ℕ) (report : BulkReport)
    → clear_routes_by s channel agent_id reason false now ≡ some (s', report)
    → (report.cleared
        ≡ min 200 (count (matches_filter (norm channel) (strip agent_id)) (values s.routes)))
      × ((key : String)
          → get s'.routes key ≡ (
              if any (has_key key) (list_routes s (norm channel) (strip agent_id) (pos 200) (pos 0))
              then none
              else get s.routes key))
unfolding clear_routes_by
clear_routes_by-count s s' channel agent_id reason now report h =
    let matching = list_routes s (norm channel) (strip agent_id) (pos 200) (pos 0) in
    (
      ground (
        arith,
        h,
        length-list_routes s (norm channel) (strip agent_id),
        norm_idem channel,
        strip_idem agent_id,
      ),
      λ key. ground (arith, h, get-clear_all s matching (or_bulk_clear reason) now key),
    )
