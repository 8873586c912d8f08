-- ===== src/Node/Tokens.antt =====
-- The nodes and their tokens in zen_claw/node/service.py. Each reading of the clock and each random
-- token or identifier is an argument of its own.
use zen_claw.Base.{
  ℕ, suc, ◌+◌, ◌-◌, ◌*◌, String, Bool, true, false, not, ◌&&◌, Option, none, some, List, [], ◌∷◌,
  map, ◌==◌, ltb, leb, length, if◌then◌else◌,
}
use zen_claw.Base.Int.{ℤ, max_zero}
use zen_claw.Base.Dict.{Dict, get, put}
use zen_claw.Base.Text.{norm}
use zen_claw.Base.Sets.{add_nonempty, sorted}
use zen_claw.Node.Data.{Node, Store, Config, default_policy}

pub record TokenInfo : Type 0 where
  pub node_id : String
  pub token : String
  pub token_expires_at_ms : Option ℕ

-- `(now + ttl * 1000) if ttl > 0 else None`
unfoldable pub expiry : ℕ → ℕ → Option ℕ
expiry now ttl = if ltb 0 ttl then some (now + ttl * 1000) else none

unfoldable pub register_node :
    Config → Store → String → String → List String → String → String → ℕ → Store × TokenInfo
unfolding expiry
register_node cfg s name platform capabilities node_id token now =
    let ttl = cfg.default_token_ttl_sec in
    (
      record s {
        nodes = put s.nodes node_id (record {
          node_id = node_id;
          name = name;
          platform = platform;
          capabilities = sorted (add_nonempty [] (map norm capabilities));
          policy = default_policy;
          token = token;
          token_issued_at_ms = now;
          token_expires_at_ms = expiry now ttl;
          token_ttl_sec = ttl;
          token_revoked = false;
          status = "active";
          last_seen_ms = now;
          created_at_ms = now;
          updated_at_ms = now;
        });
      },
      record { node_id = node_id; token = token; token_expires_at_ms = expiry now ttl },
    )

-- `isinstance(exp, int) and exp > 0 and exp <= now`
unfoldable pub has_expired : Option ℕ → ℕ → Bool
has_expired none now = false
has_expired (some exp) now = ltb 0 exp && leb exp now

unfoldable pub auth_node : Option Node → String → ℕ → Bool
unfolding has_expired
auth_node none token now = false
auth_node (some node) token now =
    node.token == token && not node.token_revoked && not (has_expired node.token_expires_at_ms now)

-- `_auth`
unfoldable pub auth : Store → String → String → ℕ → Bool
unfolding auth_node
auth s node_id token now = auth_node (get s.nodes node_id) token now

-- `self._default_token_ttl_sec if ttl_sec is None else max(0, int(ttl_sec))`
unfoldable pub chosen_ttl : Config → Option ℤ → ℕ
chosen_ttl cfg none = cfg.default_token_ttl_sec
chosen_ttl cfg (some ttl_sec) = max_zero ttl_sec

unfoldable pub rotate_token :
    Config → Store → String → Option ℤ → ℕ → String → Store × Option TokenInfo
unfolding expiry
rotate_token cfg s node_id ttl_sec now token = elim (get s.nodes node_id) [
  | none ↦ (s, none)
  | some node ↦
      let ttl = chosen_ttl cfg ttl_sec in
      (
        record s {
          nodes = put s.nodes node_id (record node {
            token = token;
            token_issued_at_ms = now;
            token_expires_at_ms = expiry now ttl;
            token_ttl_sec = ttl;
            token_revoked = false;
            updated_at_ms = now;
          });
        },
        some (record { node_id = node_id; token = token; token_expires_at_ms = expiry now ttl }),
      )
]

unfoldable pub revoke_token : Store → String → ℕ → Store × Bool
revoke_token s node_id now = elim (get s.nodes node_id) [
  | none ↦ (s, false)
  | some node ↦ (
    record s {
      nodes = put s.nodes node_id (record node { token_revoked = true; updated_at_ms = now });
    },
    true,
  )
]

pub record TokenStatus : Type 0 where
  pub node_id : String
  pub token_issued_at_ms : ℕ
  pub token_expires_at_ms : Option ℕ
  pub token_ttl_sec : ℕ
  pub token_revoked : Bool
  pub token : String

unfoldable pub get_token_status : Store → String → Option TokenStatus
get_token_status s node_id = elim (get s.nodes node_id) [
  | none ↦ none
  | some node ↦ some (record {
    node_id = node_id;
    token_issued_at_ms = node.token_issued_at_ms;
    token_expires_at_ms = node.token_expires_at_ms;
    token_ttl_sec = node.token_ttl_sec;
    token_revoked = node.token_revoked;
    token = node.token;
  })
]

unfoldable pub heartbeat : Store → String → String → ℕ → ℕ → ℕ → Store × Bool
heartbeat s node_id token auth_ms seen_ms now =
    if not (auth s node_id token auth_ms) then (s, false) else elim (get s.nodes node_id) [
      | none ↦ (s, false)
      | some node ↦ (
        record s {
          nodes =
              put s.nodes node_id
                (record node { last_seen_ms = seen_ms; updated_at_ms = now; status = "active" });
        },
        true,
      )
    ]

pub record Candidate : Type 0 where
  pub node_id : String
  pub reason : String
  pub token_expires_at_ms : Option ℕ
  pub token_revoked : Bool

pub record ScanReport : Type 0 where
  pub checked : ℕ
  pub candidates : List Candidate
  pub rotated : List TokenInfo

-- `exp > now and window > 0 and exp - now <= window * 1000`
unfoldable pub expires_within : Option ℕ → ℕ → ℕ → Bool
expires_within none window now = false
expires_within (some exp) window now =
    ltb now exp && ltb 0 window && leb (exp - now) (window * 1000)

-- `exp is None or exp <= 0`
unfoldable pub no_expiry : Option ℕ → Bool
no_expiry none = true
no_expiry (some exp) = leb exp 0

-- the reason why a scan names the node; the empty text if it does not
unfoldable pub scan_reason : ℕ → ℕ → Node → String
unfolding has_expired expires_within no_expiry
scan_reason window now node =
    if node.token_revoked
    then "revoked"
    else if has_expired node.token_expires_at_ms now
    then "expired"
    else if expires_within node.token_expires_at_ms window now
    then "expiring_soon"
    else if no_expiry node.token_expires_at_ms && ltb 0 window
    then "no_expiry"
    else ""

unfoldable pub scan_candidates : ℕ → ℕ → Dict Node → List Candidate
scan_candidates window now [] = []
scan_candidates window now ((node_id, node) ∷ rest) =
    let reason = scan_reason window now node in
    let later = scan_candidates window now rest in
    if reason == ""
    then later
    else record {
      node_id = node_id;
      reason = reason;
      token_expires_at_ms = node.token_expires_at_ms;
      token_revoked = node.token_revoked;
    }
      ∷ later

unfoldable pub rotate_all :
    Config → Store → Option ℤ → List Candidate → (ℕ → ℕ × String) → ℕ → Store × List TokenInfo
rotate_all cfg s ttl_sec [] fresh i = (s, [])
rotate_all cfg s ttl_sec (c ∷ cs) fresh i =
    let (s₁, updated) = rotate_token cfg s c.node_id ttl_sec (fresh i).0 (fresh i).1 in
    let (s₂, rest) = rotate_all cfg s₁ ttl_sec cs fresh (suc i) in
    elim updated [ none ↦ (s₂, rest) | some info ↦ (s₂, info ∷ rest) ]

-- The i-th rotation reads the clock and draws a token: `fresh i`.
unfoldable pub scan_token_rotation :
    Config → Store → ℤ → Bool → Option ℤ → ℕ → (ℕ → ℕ × String) → Store × ScanReport
scan_token_rotation cfg s within_sec rotate ttl_sec now fresh =
    let candidates = scan_candidates (max_zero within_sec) now s.nodes in
    let (s', rotated) = if rotate then rotate_all cfg s ttl_sec candidates fresh 0 else (s, []) in
    (s', record { checked = length s.nodes; candidates = candidates; rotated = rotated })

abbrev insert_by_created : Node → List Node → List Node
insert_by_created n [] = n ∷ []
insert_by_created n (m ∷ ms) =
    if leb n.created_at_ms m.created_at_ms then n ∷ m ∷ ms else m ∷ insert_by_created n ms

abbrev by_created : Dict Node → List Node
by_created [] = []
by_created ((_, n) ∷ rest) = insert_by_created n (by_created rest)

-- `sorted(nodes.values(), key=created_at_ms)`, which is stable
unfoldable pub list_nodes : Store → List Node
list_nodes s = by_created s.nodes
