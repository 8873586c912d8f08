-- ===== src/Auth/Revoking.antt =====
-- What `revoke` of zen_claw/auth/api_keys.py disables.
use zen_claw.Base.{
  String, ◌≡◌, refl, Bool, false, not, ◌&&◌, Option, none, some, [], ◌∷◌, ◌==◌, if◌then◌else◌,
  arith, Bool-cases, inl, inr, sym, ap, ◌∙◌,
}
use zen_claw.Base.Text.{starts_with}
use zen_claw.Base.Dict.{Dict, get}
use zen_claw.Auth.ApiKeys.{KeyEntry, is_usable, revoke_from, revoke, verify}

-- what `revoke` makes of an entry
abbrev pub disabled_by : String → Option KeyEntry → Option KeyEntry
disabled_by prefix none = none
disabled_by prefix (some e) =
    some (if starts_with e.prefix prefix then record e { enabled = false } else e)

get-revoke_from :
    (prefix : String) (keys : Dict KeyEntry) (k : String)
    → get (revoke_from prefix keys).0 k ≡ disabled_by prefix (get keys k)
unfolding revoke_from get
get-revoke_from prefix [] k = refl
get-revoke_from prefix ((hashed, e) ∷ keys) k = elim (Bool-cases (starts_with e.prefix prefix)) [
  | inl s ↦ rw s (elim (Bool-cases (hashed == k)) [
    | inl h ↦ rw (h, s)
    | inr h ↦ rw h (get-revoke_from prefix keys k)
  ])
  | inr s ↦ rw s (elim (Bool-cases (hashed == k)) [
    | inl h ↦ rw (h, s)
    | inr h ↦ rw h (get-revoke_from prefix keys k)
  ])
]

-- with no key found, none changes
not_found :
    (prefix : String) (keys : Dict KeyEntry)
    → (revoke_from prefix keys).1 ≡ false
    → (revoke_from prefix keys).0 ≡ keys
unfolding revoke_from
not_found prefix [] h = refl
not_found prefix ((hashed, e) ∷ keys) h = elim (Bool-cases (starts_with e.prefix prefix)) [
  | inl s ↦ absurd (ground arith)
  | inr s ↦ ground (arith, not_found prefix keys)
]

pub get-revoke :
    (prefix : String) (keys : Dict KeyEntry) (k : String)
    → get (revoke keys prefix).0 k ≡ disabled_by prefix (get keys k)
unfolding revoke
get-revoke prefix keys k = elim (Bool-cases (revoke_from prefix keys).1) [
  | inl f ↦ rw f (get-revoke_from prefix keys k)
  | inr f ↦ rw f (sym (ap (λ d. get d k) (not_found prefix keys f)) ∙ get-revoke_from prefix keys k)
]

-- whether the key's entry starts with a text
abbrev pub has_prefix : Option KeyEntry → String → Bool
has_prefix none prefix = false
has_prefix (some e) prefix = starts_with e.prefix prefix

-- After a key's prefix is revoked, a raw key verifies exactly if it did before and the displayed
-- prefix of its entry does not start with the text that was revoked.
pub verify-revoke :
    (hash_key : String → String) (keys : Dict KeyEntry) (prefix raw : String)
    → verify hash_key (revoke keys prefix).0 raw
      ≡ (verify hash_key keys raw && not (has_prefix (get keys (hash_key raw)) prefix))
unfolding verify
verify-revoke hash_key keys prefix raw =
    rw (get-revoke prefix keys (hash_key raw)) (usable (get keys (hash_key raw)))
  where
    usable :
        (entry : Option KeyEntry)
        → is_usable (disabled_by prefix entry) ≡ (is_usable entry && not (has_prefix entry prefix))
    usable none = refl
    usable (some e) = ground arith
