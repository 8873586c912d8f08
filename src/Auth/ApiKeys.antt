-- ===== src/Auth/ApiKeys.antt =====
-- `ApiKeyStore` of zen_claw/auth/api_keys.py, on the loaded dict of keys. SHA-256 and the random raw
-- keys are arguments; the clock counts seconds.
use zen_claw.Base.{
  ℕ, String, Bool, true, false, ◌||◌, Option, none, some, List, [], ◌∷◌, ◌==◌, leb, if◌then◌else◌,
}
use zen_claw.Base.Text.{starts_with, upper}
use zen_claw.Base.Strings.{take_chars}
use zen_claw.Base.Dict.{Dict, get, put, values}

pub record KeyEntry : Type 0 where
  pub prefix : String
  pub role : String
  pub created_at : ℕ
  pub enabled : Bool
  pub label : String

-- `ROLE_WEIGHTS.get(role, 0)`
unfoldable pub role_weight : String → ℕ
role_weight role =
    if role == "admin"
    then 3
    else if role == "operator"
    then 2
    else if role == "readonly"
    then 1
    else 0

-- `role in ROLE_WEIGHTS`
unfoldable pub is_role : String → Bool
is_role role = role == "admin" || role == "operator" || role == "readonly"

-- `generate_api_key`: the prefix of a raw key
unfoldable pub prefix_of : String → String
prefix_of raw = take_chars 12 raw

-- the entry of a key that may be used
abbrev pub enabled_entry : Option KeyEntry → Option KeyEntry
enabled_entry none = none
enabled_entry (some e) = if e.enabled then some e else none

abbrev pub known_role : KeyEntry → String
known_role e = if is_role e.role then e.role else "readonly"

abbrev pub role_of : Option KeyEntry → Option String
role_of none = none
role_of (some e) = some (known_role e)

abbrev pub is_at_least : Option String → String → Bool
is_at_least none required = false
is_at_least (some role) required = leb (role_weight required) (role_weight role)

abbrev pub is_usable : Option KeyEntry → Bool
is_usable none = false
is_usable (some e) = e.enabled

-- the loop of `revoke`: the keys, and whether one was found
unfoldable pub revoke_from : String → Dict KeyEntry → Dict KeyEntry × Bool
revoke_from prefix [] = ([], false)
revoke_from prefix ((hashed, e) ∷ keys) =
    let (rest, found) = revoke_from prefix keys in
    if starts_with e.prefix prefix
    then ((hashed, record e { enabled = false }) ∷ rest, true)
    else ((hashed, e) ∷ rest, found)

module _ (hash_key : String → String) where
  -- `create`, with the raw key that `generate_api_key` draws
  unfoldable pub create : Dict KeyEntry → String → String → String → ℕ → Dict KeyEntry
  create keys raw role label now = put keys (hash_key raw) (record {
    prefix = prefix_of raw;
    role = role;
    created_at = now;
    enabled = true;
    label = label;
  })

  -- `verify`
  unfoldable pub verify : Dict KeyEntry → String → Bool
  verify keys raw = is_usable (get keys (hash_key raw))

  -- `get_role`
  unfoldable pub get_role : Dict KeyEntry → String → Option String
  get_role keys raw = role_of (enabled_entry (get keys (hash_key raw)))

  -- `has_role`
  unfoldable pub has_role : Dict KeyEntry → String → String → Bool
  has_role keys raw required_role = is_at_least (get_role keys raw) required_role

-- `revoke`: the keys are saved only if one was found
unfoldable pub revoke : Dict KeyEntry → String → Dict KeyEntry × Bool
revoke keys prefix =
    let (changed, found) = revoke_from prefix keys in
    if found then (changed, true) else (keys, false)

-- `list_keys`
unfoldable pub list_keys : Dict KeyEntry → List KeyEntry
list_keys keys = values keys

-- `is_admin_path`
unfoldable pub is_admin_path : String → Bool
is_admin_path path = starts_with path "/api/v1/admin/"

-- `is_write_path`
unfoldable pub is_write_path : String → String → Bool
is_write_path method path =
    let m = upper method in m == "POST" || m == "PUT" || m == "PATCH" || m == "DELETE"
