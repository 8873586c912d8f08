-- ===== src/Routing/Tests.antt =====
-- A small store of routes.
use zen_claw.Base.{
  arith, ◌≤◌, String, ◌≡◌, ◌==◌, ◌++◌, if◌then◌else◌, refl, true, false, some, map, [], ◌∷◌, any,
  count, keep,
}
use zen_claw.Base.Int.{pos, max_zero, max_one}
use zen_claw.Base.Dict.{get, put, remove, values}
use zen_claw.Base.Text.{lower, lower_char, norm, strip}
use zen_claw.Routing.Store.{
  RouteStore, Address, make_route_key, route_key_of, updated_of, route_for, audit_row, is_stale,
  write_route, set_route, is_recent_switch, latest, soft_rollback_on_error,
}
use zen_claw.Routing.Bulk.{
  bounded_limit, matches_filter, insert_route, sort_routes, list_routes, clear_all, BulkReport,
  clear_routes_by,
}
use zen_claw.Base.Strings.{before, drop_chars, size}
use zen_claw.Routing.AuditLog.{
  like, some_suffix, passes_filter, newest_first, insert_newest, parse_route_key, list_audit_all,
}
use zen_claw.Routing.Parsing.{has_no_colon, parse_route_key-make_route_key}
use zen_claw.Routing.Writes.{write_route_order}
use zen_claw.Routing.Rollback.{rollback-write_route}
use zen_claw.Routing.Clearing.{has_key}

abbrev ann : Address
ann = record { channel = " Telegram"; chat_id = "c1"; user_id = "ann" }

abbrev key : String
key = "telegram:c1:ann"

abbrev none_yet : RouteStore
none_yet = record { routes = []; audit = [] }

abbrev bound : RouteStore
bound = (write_route none_yet key ann "sales" "bind" 1000).0

program : Unit {0}
unfolding any count keep get put remove values lower norm strip max_zero max_one make_route_key
    route_key_of is_stale write_route set_route is_recent_switch latest soft_rollback_on_error
    bounded_limit matches_filter insert_route sort_routes list_routes clear_all clear_routes_by
    has_key
program = tt

set_route_runs :
    set_route none_yet ann " sales " "bind" 1000 ≡ some (bound, route_for key ann "sales" 1000)
unfolding program
set_route_runs = refl

write_route_order_example :
    (get (write_route (write_route bound key ann "a" "" 2000).0 key ann "b" "" 3000).0.routes key
      ≡ get
          (write_route (write_route bound key ann "b" "" 3000).0 key ann "a" "" 2000).0.routes
          key)
    × (3000
        ≤ updated_of (
            get
              (write_route (write_route bound key ann "a" "" 2000).0 key ann "b" "" 3000).0.routes
              key))
write_route_order_example =
    write_route_order bound key ann ann "a" "b" "" "" 2000 3000 (omega arith)

rollback-write_route_example :
    let s₁ = (write_route bound key ann (strip "support") "switch" 2000).0 in
    let s₂ = (write_route s₁ key ann "sales" "soft_rollback" 90000).0 in
    (soft_rollback_on_error s₁ ann "support" (pos 180000) 90000
      ≡ some (s₂, some (route_for key ann "sales" 90000)))
    × (get s₂.routes key ≡ some (route_for key ann "sales" 90000))
    × ((other : String)
        → get s₂.routes other ≡ (
            if key == other
            then some (route_for key ann "sales" 90000)
            else get bound.routes other))
    × (s₂.audit
        ≡ bound.audit
          ++ audit_row key "sales" (strip "support") "switch" 2000
            ∷ audit_row key (strip "support") "sales" "soft_rollback" 90000
            ∷ [])
unfolding program
rollback-write_route_example =
    rollback-write_route bound ann key "support" "switch" (pos 180000) 2000 90000
      (route_for key ann "sales" 1000) refl refl refl refl (omega arith) (omega arith, tt)
      (omega arith) (omega arith)

abbrev padded : RouteStore
padded = record bound {
  routes = (key, record (route_for key ann "sales" 1000) { channel = "telegram" }) ∷ [];
}

abbrev report : BulkReport
report = record { cleared = 1; preview = []; dry_run = false }

-- an underscore in the name of a channel stands for any character, so that the entries of another
-- channel pass the filter
like_underscore : like "wx_a:%" "wx-a:c1:ann" ≡ true
unfolding like some_suffix lower_char
like_underscore = refl

audit_of_channel :
    map (λ e. e.1) (list_audit_all bound "telegram" "sales" "" (pos 0) (pos 1000) (pos 50) (pos 0))
    ≡ record { channel = "telegram"; chat_id = "c1"; user_id = "ann" } ∷ []
unfolding program list_audit_all newest_first insert_newest passes_filter like some_suffix
    parse_route_key before drop_chars size lower_char
audit_of_channel = refl

parse_route_key-make_route_key_example :
    parse_route_key key ≡ record { channel = "telegram"; chat_id = "c1"; user_id = "ann" }
unfolding program has_no_colon
parse_route_key-make_route_key_example = parse_route_key-make_route_key ann key refl refl refl
