-- ===== src/Routing/AuditLog.antt =====
-- `list_audit_all` of zen_claw/channels/routing.py, with the operator LIKE of SQLite.
use zen_claw.Base.{
  ℕ, ◌+◌, String, Bool, true, false, ◌&&◌, ◌||◌, List, [], ◌∷◌, ◌==◌, eqb, ltb, leb, keep, take,
  drop, if◌then◌else◌,
}
use zen_claw.Base.Int.{ℤ, max_zero}
use zen_claw.Base.Text.{norm, strip, lower_char}
use zen_claw.Base.Strings.{before, drop_chars, size}
use Prim.Native.Char.{Char, code}
use Prim.Native.String.{◌++◌}
use zen_claw.Routing.Store.{AuditRow, Address, RouteStore}
use zen_claw.Routing.Bulk.{bounded_limit}

-- `%` stands for any text
unfoldable pub some_suffix : (String → Bool) → String → Bool
some_suffix q String.[] = q ""
some_suffix q (String.◌∷◌ c s) = q (String.◌∷◌ c s) || some_suffix q s

-- `_` stands for any character; the others match themselves in either case
abbrev pub one_char : Char → (String → Bool) → String → Bool
one_char c q String.[] = false
one_char c q (String.◌∷◌ d s) =
    (eqb (code c) 95 || eqb (code (lower_char c)) (code (lower_char d))) && q s

-- `text LIKE pattern`
unfoldable pub like : String → String → Bool
like String.[] text = text == ""
like (String.◌∷◌ c pattern) text =
    let rest = like pattern in
    if eqb (code c) 37 then some_suffix rest text else one_char c rest text

-- the filters of a call
pub record AuditFilter : Type 0 where
  pub channel : String
  pub agent_id : String
  pub reason : String
  pub from_at_ms : ℕ
  pub to_at_ms : ℕ

-- the WHERE clause; an empty filter, or the time 0, is left out
unfoldable pub passes_filter : AuditFilter → AuditRow → Bool
passes_filter f r =
    (if f.channel == ""
      then true
      else r.route_key == f.channel || like (f.channel ++ ":%") r.route_key)
    && (if f.agent_id == ""
        then true
        else r.previous_agent_id == f.agent_id || r.new_agent_id == f.agent_id)
    && (if f.reason == "" then true else r.reason == f.reason)
    && (if eqb f.from_at_ms 0 then true else leb f.from_at_ms r.at_ms)
    && (if eqb f.to_at_ms 0 then true else leb r.at_ms f.to_at_ms)

unfoldable pub insert_newest : AuditRow → List AuditRow → List AuditRow
insert_newest r [] = r ∷ []
insert_newest r (q ∷ qs) =
    let later = insert_newest r qs in if ltb q.at_ms r.at_ms then r ∷ q ∷ qs else q ∷ later

-- `ORDER BY at_ms DESC, id DESC`
unfoldable pub newest_first : List AuditRow → List AuditRow
newest_first [] = []
newest_first (r ∷ rs) = insert_newest r (newest_first rs)

-- `_parse_route_key`
unfoldable pub parse_route_key : String → Address
parse_route_key route_key =
    let channel = before ":" route_key in
    let rest = drop_chars (size channel + 1) route_key in
    let chat = before ":" rest in
    record { channel = channel; chat_id = chat; user_id = drop_chars (size chat + 1) rest }

abbrev pub with_parts : List AuditRow → List (AuditRow × Address)
with_parts [] = []
with_parts (r ∷ rs) = (r, parse_route_key r.route_key) ∷ with_parts rs

unfoldable pub list_audit_all :
    RouteStore → String → String → String → ℤ → ℤ → ℤ → ℤ → List (AuditRow × Address)
list_audit_all s channel agent_id reason from_at_ms to_at_ms limit offset =
    let f : AuditFilter = record {
      channel = norm channel;
      agent_id = strip agent_id;
      reason = strip reason;
      from_at_ms = max_zero from_at_ms;
      to_at_ms = max_zero to_at_ms;
    } in
    with_parts (
      take (bounded_limit limit)
        (drop (max_zero offset) (newest_first (keep (passes_filter f) s.audit))))
