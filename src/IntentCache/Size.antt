-- ===== src/IntentCache/Size.antt =====
-- The size of the cache of zen_claw/agent/intent_cache.py, and its counters.
use zen_claw.Base.{
  ℕ, suc, ◌+◌, ◌*◌, ◌≤◌, ◌<◌, String, ◌≡◌, refl, some, List, [], ◌∷◌, length, arith, Option-cases,
  inl, inr, length-append,
}
use zen_claw.Base.Int.{ℤ, max_one}
use zen_claw.Base.Dict.{Dict, get as dict_get, remove}
use zen_claw.IntentCache.Cache.{
  CacheEntry, IntentCache, init, ttl_for, evict, make_key, get, get_entry, put, put_entry,
  invalidate, clear,
}

-- One call of the cache.
pub data Call : Type 0 where
  getting : (intent_name query : String) (now : ℕ) → Call
  putting : (intent_name query content : String) (now : ℕ) → Call
  invalidating : (intent_name query : String) → Call
  clearing : Call

module _ (digest : String → String) where
  unfoldable pub step : IntentCache → Call → IntentCache
  step c (getting intent_name query now) = (get digest c intent_name query now).0
  step c (putting intent_name query content now) = put digest c intent_name query content now
  step c (invalidating intent_name query) = (invalidate digest c intent_name query).0
  step c clearing = clear c

  unfoldable pub run : IntentCache → List Call → IntentCache
  run c [] = c
  run c (call ∷ calls) = run (step c call) calls

-- the look-ups since the counters were last reset
unfoldable pub lookups : ℕ → List Call → ℕ
lookups n [] = n
lookups n (getting intent_name query now ∷ calls) = lookups (suc n) calls
lookups n (clearing ∷ calls) = lookups 0 calls
lookups n (_ ∷ calls) = lookups n calls

module _ {ℓ} {V : Type ℓ} where
  length-remove : (d : Dict V) (k : String) → length (remove d k) ≤ length d
  unfolding remove
  length-remove [] k = omega arith
  length-remove ((j, w) ∷ d) k = ground (arith, length-remove d k)

  length-remove_found :
      (d : Dict V) (k : String) (v : V) → dict_get d k ≡ some v → length (remove d k) < length d
  unfolding remove dict_get
  length-remove_found [] k v h = ground arith
  length-remove_found ((j, w) ∷ d) k v h =
      ground (arith, length-remove d k, length-remove_found d k v)

length-evict :
    (maxsize : ℕ) (d : Dict CacheEntry) → 1 ≤ maxsize → length (evict maxsize d).0 < maxsize
unfolding evict
length-evict maxsize [] h = omega arith
length-evict maxsize (e ∷ d) h = ground (arith, length-evict maxsize d h)

max_one_pos : (n : ℤ) → 1 ≤ max_one n
unfolding max_one
max_one_pos n = ground arith

-- What is claimed of every cache that calls reach: a place for one entry at least, no more entries
-- than places, and a hit or a miss counted for each look-up.
pub record IsSound (maxsize seen : ℕ) (c : IntentCache) : Type 0 where
  pub size : c.maxsize ≡ maxsize
  pub room : 1 ≤ maxsize
  pub fits : length c.store ≤ maxsize
  pub counted : c.hits + c.misses ≡ seen

module _ (digest : String → String) where
  get-IsSound :
      (maxsize seen : ℕ) (c : IntentCache) (intent_name query : String) (now : ℕ)
      → IsSound maxsize seen c
      → IsSound maxsize (suc seen) (get digest c intent_name query now).0
  unfolding get get_entry
  get-IsSound maxsize seen c intent_name query now h =
      let key = make_key digest intent_name query in
      elim (Option-cases (dict_get c.store key)) [
        | inl e ↦ ground (arith, e)
        | inr (entry, e) ↦ ground (
          arith,
          e,
          length-remove_found c.store key entry e,
          length-append (remove c.store key) ((key, entry) ∷ []),
        )
      ]

  put-IsSound :
      (maxsize seen : ℕ) (c : IntentCache) (intent_name query content : String) (now : ℕ)
      → IsSound maxsize seen c
      → IsSound maxsize seen (put digest c intent_name query content now)
  unfolding put put_entry
  put-IsSound maxsize seen c intent_name query content now h =
      let key = make_key digest intent_name query in
      let new : CacheEntry = record {
        content = content;
        expires_at_ms = now + ttl_for c intent_name * 1000;
      } in
      elim (Option-cases (dict_get c.store key)) [
        | inl e ↦ ground (
          arith,
          e,
          length-evict maxsize c.store h.room,
          length-append (evict maxsize c.store).0 ((key, new) ∷ []),
        )
        | inr (entry, e) ↦ ground (
          arith,
          e,
          length-remove_found c.store key entry e,
          length-append (remove c.store key) ((key, new) ∷ []),
        )
      ]

  invalidate-IsSound :
      (maxsize seen : ℕ) (c : IntentCache) (intent_name query : String)
      → IsSound maxsize seen c
      → IsSound maxsize seen (invalidate digest c intent_name query).0
  unfolding invalidate
  invalidate-IsSound maxsize seen c intent_name query h =
      ground (arith, length-remove c.store (make_key digest intent_name query))

  run-IsSound_from :
      (maxsize seen : ℕ) (c : IntentCache) (calls : List Call)
      → IsSound maxsize seen c
      → IsSound maxsize (lookups seen calls) (run digest c calls)
  unfolding run step lookups clear
  run-IsSound_from maxsize seen c [] h = h
  run-IsSound_from maxsize seen c (getting intent_name query now ∷ calls) h =
      run-IsSound_from maxsize (suc seen) (get digest c intent_name query now).0 calls
        (get-IsSound maxsize seen c intent_name query now h)
  run-IsSound_from maxsize seen c (putting intent_name query content now ∷ calls) h =
      run-IsSound_from maxsize seen (put digest c intent_name query content now) calls
        (put-IsSound maxsize seen c intent_name query content now h)
  run-IsSound_from maxsize seen c (invalidating intent_name query ∷ calls) h =
      run-IsSound_from maxsize seen (invalidate digest c intent_name query).0 calls
        (invalidate-IsSound maxsize seen c intent_name query h)
  run-IsSound_from maxsize seen c (clearing ∷ calls) h =
      run-IsSound_from maxsize 0 (clear c) calls
        (record { size = h.size; room = h.room; fits = omega arith; counted = omega arith })

  -- After any calls on a new cache, it has a place for one entry at least, no more entries than
  -- places, and its hits and misses together are the look-ups since it was made or last cleared.
  pub run-IsSound :
      (maxsize default_ttl : ℤ) (ttl_by_intent : Dict ℕ) (calls : List Call)
      → IsSound
          (max_one maxsize)
          (lookups 0 calls)
          (run digest (init maxsize ttl_by_intent default_ttl) calls)
  unfolding init
  run-IsSound maxsize default_ttl ttl_by_intent calls =
      run-IsSound_from (max_one maxsize) 0 (init maxsize ttl_by_intent default_ttl) calls (record {
        size = refl;
        room = max_one_pos maxsize;
        fits = omega arith;
        counted = omega arith;
      })
