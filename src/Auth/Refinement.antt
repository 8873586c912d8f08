-- ===== src/Auth/Refinement.antt =====
-- `ApiKeyStore` of zen_claw/auth/api_keys.py against what it promises: a function from hashes to
-- entries, with no order and no file.
use zen_claw.Base.{
  ℕ, String, ◌≡◌, refl, true, Option, some, List, [], ◌∷◌, ◌==◌, if◌then◌else◌, ◌∙◌, ap,
}
use mathlib.Core.Path.{fun_ext}
use zen_claw.Base.Dict.{Dict, get, get-put}
use zen_claw.Auth.ApiKeys.{KeyEntry, is_usable, prefix_of, create, verify, revoke}
use zen_claw.Auth.Revoking.{disabled_by, get-revoke}

-- the entry of every hash
abbrev pub Grants : Type 0
Grants = String → Option KeyEntry

abbrev pub view : Dict KeyEntry → Grants
view keys = get keys

-- A call that changes the keys.
pub data Op : Type 0 where
  create_key : String → String → String → ℕ → Op
  revoke_prefix : String → Op

module _ (hash_key : String → String) where
  unfoldable pub step : Dict KeyEntry → Op → Dict KeyEntry
  step keys (create_key raw role label now) = create hash_key keys raw role label now
  step keys (revoke_prefix prefix) = (revoke keys prefix).0

  unfoldable pub run : Dict KeyEntry → List Op → Dict KeyEntry
  run keys [] = keys
  run keys (op ∷ ops) = run (step keys op) ops

  -- one entry is written, or all those with a prefix are disabled at once
  abbrev pub spec_step : Grants → Op → Grants
  spec_step f (create_key raw role label now) = λ h.
      if hash_key raw == h
      then some (record {
        prefix = prefix_of raw;
        role = role;
        created_at = now;
        enabled = true;
        label = label;
      })
      else f h
  spec_step f (revoke_prefix prefix) = λ h. disabled_by prefix (f h)

  abbrev pub spec_run : Grants → List Op → Grants
  spec_run f [] = f
  spec_run f (op ∷ ops) = spec_run (spec_step f op) ops

  step_refines : (keys : Dict KeyEntry) (op : Op) → view (step keys op) ≡ spec_step (view keys) op
  unfolding step create
  step_refines keys (create_key raw role label now) = fun_ext λ h. get-put keys (hash_key raw) h _
  step_refines keys (revoke_prefix prefix) = fun_ext λ h. get-revoke prefix keys h

  view-run : (ops : List Op) (keys : Dict KeyEntry) → view (run keys ops) ≡ spec_run (view keys) ops
  unfolding run
  view-run [] keys = refl
  view-run (op ∷ ops) keys =
      view-run ops (step keys op) ∙ ap (λ f. spec_run f ops) (step_refines keys op)

  -- After any sequence of creations and revocations a raw key verifies exactly if the abstract
  -- store, in which a creation writes the entry of one hash and a revocation disables all entries
  -- with the prefix at once, has an enabled entry for its hash.
  pub verify-run :
      (ops : List Op) (keys : Dict KeyEntry) (raw : String)
      → verify hash_key (run keys ops) raw ≡ is_usable (spec_run (view keys) ops (hash_key raw))
  unfolding verify
  verify-run ops keys raw = ap (λ f. is_usable (f (hash_key raw))) (view-run ops keys)
