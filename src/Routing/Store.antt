-- ===== src/Routing/Store.antt =====
-- `AgentRouteStore` of zen_claw/channels/routing.py over its two SQLite tables: `routes` by its primary
-- key, and `route_audit` in the order of its ids. `none` as a result of a whole call stands for the
-- ValueError. The clock is an argument where the caller leaves it out.
use zen_claw.Base.{
  ℕ, ◌+◌, String, Bool, false, not, ◌&&◌, ◌||◌, Option, none, some, List, [], ◌∷◌, ◌++◌, ◌==◌, ltb,
  leb, keep, if◌then◌else◌,
}
use zen_claw.Base.Int.{ℤ, max_one}
use zen_claw.Base.Dict.{Dict, get, put, remove}
use zen_claw.Base.Text.{lower, norm, strip}
use Prim.Native.String.{◌++◌ as str_append}

pub record AgentRoute : Type 0 where
  pub route_key : String
  pub channel : String
  pub chat_id : String
  pub user_id : String
  pub agent_id : String
  pub updated_at_ms : ℕ

pub record AuditRow : Type 0 where
  pub route_key : String
  pub previous_agent_id : String
  pub new_agent_id : String
  pub reason : String
  pub at_ms : ℕ

pub record RouteStore : Type 0 where
  pub routes : Dict AgentRoute
  pub audit : List AuditRow

-- A user of a chat of a channel.
pub record Address : Type 0 where
  pub channel : String
  pub chat_id : String
  pub user_id : String

unfoldable pub route_key_of : String → String → String → String
route_key_of ch chat user = str_append ch (str_append ":" (str_append chat (str_append ":" user)))

unfoldable pub make_route_key : Address → Option String
make_route_key a =
    let ch = norm a.channel in
    let chat = strip a.chat_id in
    let user = strip a.user_id in
    if ch == "" || ((chat == "") || (user == "")) then none else some (route_key_of ch chat user)

abbrev pub agent_of : Option AgentRoute → String
agent_of none = ""
agent_of (some route) = route.agent_id

abbrev pub route_for : String → Address → String → ℕ → AgentRoute
route_for key a agent_id updated_at_ms = record {
  route_key = key;
  channel = lower a.channel;
  chat_id = a.chat_id;
  user_id = a.user_id;
  agent_id = agent_id;
  updated_at_ms = updated_at_ms;
}

abbrev pub audit_row : String → String → String → String → ℕ → AuditRow
audit_row key previous new reason at_ms = record {
  route_key = key;
  previous_agent_id = previous;
  new_agent_id = new;
  reason = strip reason;
  at_ms = at_ms;
}

-- `row and now < prev_updated`
unfoldable pub is_stale : Option AgentRoute → ℕ → Bool
is_stale none now = false
is_stale (some row) now = ltb now row.updated_at_ms

abbrev pub updated_of : Option AgentRoute → ℕ
updated_of none = 0
updated_of (some row) = row.updated_at_ms

-- the transaction of `set_route`
unfoldable pub write_route :
    RouteStore → String → Address → String → String → ℕ → RouteStore × AgentRoute
write_route s key a new_agent reason now =
    let row = get s.routes key in
    let audit = s.audit ++ audit_row key (agent_of row) new_agent reason now ∷ [] in
    if is_stale row now
    then (record s { audit = audit }, route_for key a (agent_of row) (updated_of row))
    else (
      record { routes = put s.routes key (route_for key a new_agent now); audit = audit },
      route_for key a new_agent now,
    )

unfoldable pub set_route :
    RouteStore → Address → String → String → ℕ → Option (RouteStore × AgentRoute)
set_route s a agent_id reason now = elim (make_route_key a) [
  | none ↦ none
  | some key ↦
      if strip agent_id == "" then none else some (write_route s key a (strip agent_id) reason now)
]

unfoldable pub resolve_route : RouteStore → Address → Option (Option AgentRoute)
resolve_route s a = elim (make_route_key a) [ none ↦ none | some key ↦ some (get s.routes key) ]

unfoldable pub clear_route : RouteStore → Address → String → ℕ → Option (RouteStore × AuditRow)
clear_route s a reason now = elim (make_route_key a) [
  | none ↦ none
  | some key ↦
      let row = audit_row key (agent_of (get s.routes key)) "" reason now in
      some (record { routes = remove s.routes key; audit = s.audit ++ row ∷ [] }, row)
]

-- the WHERE clause of the query of `soft_rollback_on_error`, whose cut-off is `now - grace`
unfoldable pub is_recent_switch : String → String → ℕ → ℕ → AuditRow → Bool
is_recent_switch key current grace now row =
    row.route_key == key
    && (row.new_agent_id == current
        && (leb now (row.at_ms + grace) && not (row.previous_agent_id == "")))

abbrev pub later : AuditRow → Option AuditRow → Option AuditRow
later r none = some r
later r (some best) = if leb r.at_ms best.at_ms then some best else some r

-- `ORDER BY at_ms DESC LIMIT 1`; of equal times the index gives the row that was added last
unfoldable pub latest : List AuditRow → Option AuditRow
latest [] = none
latest (r ∷ rs) = later r (latest rs)

unfoldable pub soft_rollback_on_error :
    RouteStore → Address → String → ℤ → ℕ → Option (RouteStore × Option AgentRoute)
soft_rollback_on_error s a current_agent_id grace_period_ms now = elim (make_route_key a) [
  | none ↦ none
  | some key ↦
      elim (latest (
        keep (is_recent_switch key (strip current_agent_id) (max_one grace_period_ms) now)
          s.audit)) [
            | none ↦ some (s, none)
            | some row ↦
                let rollback_agent = strip row.previous_agent_id in
                if rollback_agent == ""
                then some (s, none)
                else let (s', route) = write_route s key a rollback_agent "soft_rollback" now in
                  some (s', some route)
          ]
]

unfoldable pub insert_row : AuditRow → List AuditRow → List AuditRow
insert_row r [] = r ∷ []
insert_row r (q ∷ qs) = if leb r.at_ms q.at_ms then r ∷ q ∷ qs else q ∷ insert_row r qs

-- `ORDER BY at_ms ASC, id ASC`
unfoldable pub sort_rows : List AuditRow → List AuditRow
sort_rows [] = []
sort_rows (r ∷ rs) = insert_row r (sort_rows rs)

unfoldable pub list_audit : RouteStore → Address → Option (List AuditRow)
list_audit s a = elim (make_route_key a) [
  | none ↦ none
  | some key ↦ some (sort_rows (keep (λ r. r.route_key == key) s.audit))
]
