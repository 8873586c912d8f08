-- ===== src/Node/Access.antt =====
-- Who `_auth` of zen_claw/node/service.py lets in after the operations on tokens.
use zen_claw.Base.{
  ℕ, ◌+◌, ◌*◌, String, ◌≡◌, refl, false, ◌&&◌, ◌||◌, Option, some, arith, ◌==◌, eq_iff, eqb, ltb,
  Option-cases, Bool-cases, inl, inr,
}
use zen_claw.Base.Int.{ℤ}
use zen_claw.Base.Dict.{get, get-put}
use zen_claw.Node.Data.{Node, Store, Config}
use zen_claw.Node.Tokens.{auth, chosen_ttl, rotate_token, revoke_token, heartbeat}

-- In the store that the revocation of a node's token leaves, no token whatever is accepted for
-- that node, at any time.
pub auth-revoke_token :
    (s : Store) (node_id token : String) (now t : ℕ)
    → auth (revoke_token s node_id now).0 node_id token t ≡ false
unfolding auth revoke_token
auth-revoke_token s node_id token now t = elim (Option-cases (get s.nodes node_id)) [
  | inl e ↦ rw (e, revoke_token) (rw e refl)
  | inr (n, e) ↦ rw (e, revoke_token) (rw get-put (ground (arith, eq_iff node_id node_id)))
]

-- After a token of a known node is rotated, exactly the new token is accepted for it, and exactly
-- while its time to live, if that is not 0, has not run out; a revocation is lifted.
pub auth-rotate_token :
    (cfg : Config) (s : Store) (node_id new token : String) (ttl_sec : Option ℤ) (now t : ℕ)
    {n : Node}
    → get s.nodes node_id ≡ some n
    → auth (rotate_token cfg s node_id ttl_sec now new).0 node_id token t ≡ (
        new == token
        && (eqb (chosen_ttl cfg ttl_sec) 0 || ltb t (now + chosen_ttl cfg ttl_sec * 1000)))
unfolding auth rotate_token
auth-rotate_token cfg s node_id new token ttl_sec now t {n} h =
    rw (h, rotate_token) (rw get-put (ground (arith, eq_iff node_id node_id)))

heartbeat-auth :
    (s : Store) (node_id other new token : String) (a b now t : ℕ)
    → auth (heartbeat s node_id new a b now).0 other token t ≡ auth s other token t
unfolding auth heartbeat
heartbeat-auth s node_id other new token a b now t = elim (Bool-cases (auth s node_id new a)) [
  | inr e ↦ rw (e, heartbeat)
  | inl e ↦ elim (Option-cases (get s.nodes node_id)) [
    | inl o ↦ rw (e, o, heartbeat)
    | inr (n, o) ↦ rw (e, o, heartbeat) (rw get-put (ground (arith, eq_iff node_id other)))
  ]
]

-- Rotating or revoking one node's token leaves the authentication of every other node as it was. A
-- heartbeat leaves that of every node as it was, its own included.
pub auth_other :
    (cfg : Config) (s : Store) (node_id other token new : String) (ttl_sec : Option ℤ)
    (now t a b : ℕ)
    → (node_id == other) ≡ false
    → (auth (rotate_token cfg s node_id ttl_sec now new).0 other token t ≡ auth s other token t)
      × (auth (revoke_token s node_id now).0 other token t ≡ auth s other token t)
      × ((j : String) → auth (heartbeat s node_id new a b now).0 j token t ≡ auth s j token t)
unfolding auth rotate_token revoke_token
auth_other cfg s node_id other token new ttl_sec now t a b h =
    elim (Option-cases (get s.nodes node_id)) [
      | inl e ↦ (
        rw (e, rotate_token),
        rw (e, revoke_token),
        λ j. heartbeat-auth s node_id j new token a b now t,
      )
      | inr (n, e) ↦ (
        rw (e, rotate_token) (rw (get-put, h)),
        rw (e, revoke_token) (rw (get-put, h)),
        λ j. heartbeat-auth s node_id j new token a b now t,
      )
    ]
