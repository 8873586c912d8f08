-- ===== src/IntentCache/Recency.antt =====
-- Which entries of the cache of zen_claw/agent/intent_cache.py give way to a new one.
use zen_claw.Base.{
  ℕ, suc, ◌+◌, ◌*◌, ◌-◌, ◌≤◌, String, ◌≡◌, refl, false, none, [], ◌∷◌, ◌++◌, leb, eqb, length, drop,
  arith, Bool-cases, inl, inr, ap,
}
use zen_claw.Base.Dict.{Dict, get as dict_get}
use zen_claw.IntentCache.Cache.{CacheEntry, IntentCache, ttl_for, evict, make_key, put, put_entry}

evict-drop :
    (maxsize : ℕ) (d : Dict CacheEntry)
    → 1 ≤ maxsize
    → ((evict maxsize d).0 ≡ drop (suc (length d) - maxsize) d)
      × ((evict maxsize d).1 ≡ suc (length d) - maxsize)
unfolding evict
evict-drop maxsize [] h = let e : 1 - maxsize ≡ 0 = omega arith in rw e (refl, refl)
evict-drop maxsize (e ∷ d) h = elim (Bool-cases (leb maxsize (suc (length d)))) [
  | inl f ↦
      let n : suc (suc (length d)) - maxsize ≡ suc (suc (length d) - maxsize) = ground arith in
      rw (f, n) ((evict-drop maxsize d h).0, ap suc (evict-drop maxsize d h).1)
  | inr f ↦ let n : suc (suc (length d)) - maxsize ≡ 0 = ground arith in rw (f, n) (refl, refl)
]

-- A reply under a key that the cache does not hold goes in as the entry used last. It drives out
-- those used least recently, as many as there are too many, counts them, and leaves the others in
-- their order: for a cache that is not over-full, the oldest entry if it is full, and none otherwise.
pub put-drop :
    (digest : String → String) (c : IntentCache) (intent_name query content : String) (now : ℕ)
    → 1 ≤ c.maxsize
    → eqb (ttl_for c intent_name) 0 ≡ false
    → dict_get c.store (make_key digest intent_name query) ≡ none
    → put digest c intent_name query content now ≡ record c {
      store =
          drop (suc (length c.store) - c.maxsize) c.store
          ++ (
            make_key digest intent_name query,
            record { content = content; expires_at_ms = now + ttl_for c intent_name * 1000 },
          )
            ∷ [];
      evictions = c.evictions + (suc (length c.store) - c.maxsize);
    }
unfolding put put_entry
put-drop digest c intent_name query content now room live absent =
    let (left, dropped) = evict-drop c.maxsize c.store room in
    rw (live, absent) (rw (left, dropped) refl)
