-- ===== src/IntentCache/Reads.antt =====
-- What zen_claw/agent/intent_cache.py gives back.
use zen_claw.Base.{
  ℕ, ◌+◌, ◌*◌, String, ◌≡◌, refl, Bool, true, false, none, some, [], ◌∷◌, ◌++◌, is_some, leb, eqb,
  arith, Bool-cases, Option-cases, inl, inr, if◌then◌else◌,
}
use zen_claw.Base.Dict.{Dict, get as dict_get, remove, get-remove}
use zen_claw.IntentCache.Cache.{
  CacheEntry, IntentCache, ttl_for, evict, make_key, get, get_entry, put, put_entry,
}
use text.Mathlib.TextPositions.{eq_refl}

module _ {ℓ} {V : Type ℓ} where
  pub get-append_new :
      (d : Dict V) (k : String) (v : V)
      → dict_get d k ≡ none
      → dict_get (d ++ (k, v) ∷ []) k ≡ some v
  unfolding dict_get
  get-append_new [] k v h = rw (eq_refl k)
  get-append_new ((j, w) ∷ d) k v h = ground (arith, get-append_new d k v)

get-evict-none :
    (maxsize : ℕ) (d : Dict CacheEntry) (k : String)
    → dict_get d k ≡ none
    → dict_get (evict maxsize d).0 k ≡ none
unfolding evict dict_get
get-evict-none maxsize [] k h = refl
get-evict-none maxsize ((j, w) ∷ d) k h = ground (arith, get-evict-none maxsize d k)

module _ (digest : String → String) where
  put_entry-get :
      (c : IntentCache) (key : String) (entry : CacheEntry)
      → dict_get (put_entry digest c key entry (is_some (dict_get c.store key))).store key
        ≡ some entry
  unfolding put_entry
  put_entry-get c key entry = elim (Option-cases (dict_get c.store key)) [
    | inl e ↦ rw e (
        get-append_new (evict c.maxsize c.store).0 key entry
          (get-evict-none c.maxsize c.store key e))
    | inr (old, e) ↦
        rw e (get-append_new (remove c.store key) key entry (rw get-remove (rw (eq_refl key))))
  ]

  put_entry-ttl_for :
      (c : IntentCache) (key : String) (entry : CacheEntry) (old : Bool) (intent_name : String)
      → ttl_for (put_entry digest c key entry old) intent_name ≡ ttl_for c intent_name
  unfolding put_entry ttl_for
  put_entry-ttl_for c key entry true intent_name = refl
  put_entry-ttl_for c key entry false intent_name = refl

  get_at :
      (c : IntentCache) (intent_name query : String) (t : ℕ) (entry : CacheEntry)
      → eqb (ttl_for c intent_name) 0 ≡ false
      → dict_get c.store (make_key digest intent_name query) ≡ some entry
      → (get digest c intent_name query t).1
        ≡ (if leb t entry.expires_at_ms then some entry.content else none)
  unfolding get get_entry
  get_at c intent_name query t entry live found = ground (arith, live, found)

  -- A reply that is put is given back to every query with the same key, up to the end of its time
  -- to live and not after it; for an intent whose time to live is 0 nothing is given back.
  pub get-put :
      (c : IntentCache) (intent_name query again content : String) (now t : ℕ)
      → make_key digest intent_name again ≡ make_key digest intent_name query
      → (get digest (put digest c intent_name query content now) intent_name again t).1 ≡ (
          if eqb (ttl_for c intent_name) 0
          then none
          else if leb t (now + ttl_for c intent_name * 1000)
          then some content
          else none)
  unfolding put
  get-put c intent_name query again content now t same =
      elim (Bool-cases (eqb (ttl_for c intent_name) 0)) [
        | inl e ↦ rw e (unfold get in ground (arith, e))
        | inr e ↦
            let key = make_key digest intent_name query in
            let entry : CacheEntry = record {
              content = content;
              expires_at_ms = now + ttl_for c intent_name * 1000;
            } in
            let old = is_some (dict_get c.store key) in
            let ttl = put_entry-ttl_for c key entry old intent_name in
            rw e (
              get_at (put_entry digest c key entry old) intent_name again t entry (rw (ttl, e))
                (rw same (put_entry-get c key entry)))
      ]
