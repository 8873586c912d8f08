-- ===== src/Auth/Roles.antt =====
-- The hierarchy of roles (zen_claw/auth/api_keys.py).
use zen_claw.Base.{ℕ, ◌≤◌, String, ◌≡◌, true, Option, none, some, ◌==◌, leb, if◌then◌else◌, arith}
use zen_claw.Base.Dict.{Dict, get, get-put}
use zen_claw.Auth.ApiKeys.{
  KeyEntry, role_weight, is_role, enabled_entry, role_of, is_at_least, is_usable, create, verify,
  get_role, has_role, prefix_of,
}

entry_downwards :
    (entry : Option KeyEntry) (held required : String)
    → is_at_least (role_of (enabled_entry entry)) held ≡ true
    → role_weight required ≤ role_weight held
    → (is_at_least (role_of (enabled_entry entry)) required ≡ true) × (is_usable entry ≡ true)
entry_downwards none held required h le = cc
entry_downwards (some e) held required h le = ground arith

module _ (hash_key : String → String) (keys : Dict KeyEntry) (raw : String) where
  -- A key that has a role has every role of at most the same weight, and a key that has any role is
  -- a key that verifies.
  pub has_role_downwards :
      (held required : String)
      → has_role hash_key keys raw held ≡ true
      → role_weight required ≤ role_weight held
      → (has_role hash_key keys raw required ≡ true) × (verify hash_key keys raw ≡ true)
  unfolding has_role get_role verify
  has_role_downwards held required h le =
      entry_downwards (get keys (hash_key raw)) held required h le

  -- A new key has exactly the roles of at most the weight of the role it was made for, a name that is
  -- no role counting as "readonly"; what another raw key may do is unchanged unless the two have the
  -- same hash.
  pub has_role-create :
      (fresh role label required : String) (now : ℕ)
      → has_role hash_key (create hash_key keys fresh role label now) raw required ≡ (
          if hash_key fresh == hash_key raw
          then leb (role_weight required) (role_weight (if is_role role then role else "readonly"))
          else has_role hash_key keys raw required)
  unfolding has_role get_role create
  has_role-create fresh role label required now = ground (
    arith,
    get-put keys (hash_key fresh) (hash_key raw) (record {
      prefix = prefix_of fresh;
      role = role;
      created_at = now;
      enabled = true;
      label = label;
    }),
  )
