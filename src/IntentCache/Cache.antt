-- ===== src/IntentCache/Cache.antt =====
-- `IntentCache` of zen_claw/agent/intent_cache.py. The clock is read in milliseconds; `digest` stands
-- for the first 16 digits of the SHA-256 of a query. Times to live are not negative.
use zen_claw.Base.{
  ℕ, suc, ◌+◌, ◌*◌, String, Bool, true, false, Option, none, some, [], ◌∷◌, ◌++◌, is_some, ltb, leb,
  eqb, length, if◌then◌else◌,
}
use zen_claw.Base.Int.{ℤ, max_zero, max_one}
use zen_claw.Base.Dict.{Dict, get as dict_get, put as dict_put, remove}
use zen_claw.Base.Text.{lower, norm, is_space}
use Prim.Native.Char.{code}
use Prim.Native.String.{◌++◌ as str_append}

pub record CacheEntry : Type 0 where
  pub content : String
  pub expires_at_ms : ℕ

pub record IntentCache : Type 0 where
  pub maxsize : ℕ
  pub ttl_map : Dict ℕ
  pub default_ttl : ℕ
  pub store : Dict CacheEntry
  pub hits : ℕ
  pub misses : ℕ
  pub evictions : ℕ

-- `DEFAULT_TTL_BY_INTENT`
abbrev pub default_ttl_by_intent : Dict ℕ
default_ttl_by_intent =
    ("time", 0)
    ∷ ("weather", 1800)
    ∷ ("exchange_rate", 3600)
    ∷ ("fixed_site_fetch", 300)
    ∷ ("calculator", 0)
    ∷ ("unit_convert", 0)
    ∷ ("text_stats", 0)
    ∷ ("encode", 0)
    ∷ ("hash_digest", 0)
    ∷ ("json_format", 0)
    ∷ ("color_convert", 0)
    ∷ ("ip_lookup", 3600)
    ∷ ("timezone_list", 86400)
    ∷ []

-- `d.update(e)`
unfoldable pub update : Dict ℕ → Dict ℕ → Dict ℕ
update d [] = d
update d ((k, v) ∷ e) = update (dict_put d k v) e

-- `__init__`
unfoldable pub init : ℤ → Dict ℕ → ℤ → IntentCache
init maxsize ttl_by_intent default_ttl = record {
  maxsize = max_one maxsize;
  ttl_map = update default_ttl_by_intent ttl_by_intent;
  default_ttl = max_zero default_ttl;
  store = [];
  hits = 0;
  misses = 0;
  evictions = 0;
}

abbrev or_default : ℕ → Option ℕ → ℕ
or_default d none = d
or_default d (some ttl) = ttl

-- `_ttl_for`
unfoldable pub ttl_for : IntentCache → String → ℕ
ttl_for c intent_name = or_default c.default_ttl (dict_get c.ttl_map (lower intent_name))

-- `re.sub(r"\s+", " ", s)`; the flag says that the character before was white space
unfoldable pub collapse : Bool → String → String
collapse in_space String.[] = ""
collapse in_space (String.◌∷◌ c s) =
    let blank = is_space (code c) in
    let rest = collapse blank s in
    if blank then if in_space then rest else str_append " " rest else String.◌∷◌ c rest

-- `_normalise`
unfoldable pub normalise : String → String
normalise query = collapse false (norm query)

-- `popitem(last=False)` until there is room: the store, and how many entries were dropped
unfoldable pub evict : ℕ → Dict CacheEntry → Dict CacheEntry × ℕ
evict maxsize [] = ([], 0)
evict maxsize (e ∷ es) =
    let (left, dropped) = evict maxsize es in
    if leb maxsize (length (e ∷ es)) then (left, suc dropped) else (e ∷ es, 0)

module _ (digest : String → String) where
  -- `_make_key`
  unfoldable pub make_key : String → String → String
  make_key intent_name query =
      str_append (lower intent_name) (str_append ":" (digest (normalise query)))

  -- the part of `get` below the look for the entry
  unfoldable pub get_entry :
      IntentCache → String → ℕ → Option CacheEntry → IntentCache × Option String
  get_entry c key now none = (record c { misses = suc c.misses }, none)
  get_entry c key now (some entry) =
      if ltb entry.expires_at_ms now
      then (record c { store = remove c.store key; misses = suc c.misses }, none)
      else (
        record c { store = remove c.store key ++ (key, entry) ∷ []; hits = suc c.hits },
        some entry.content,
      )

  unfoldable pub get : IntentCache → String → String → ℕ → IntentCache × Option String
  get c intent_name query now =
      if eqb (ttl_for c intent_name) 0
      then (record c { misses = suc c.misses }, none)
      else let key = make_key intent_name query in get_entry c key now (dict_get c.store key)

  unfoldable pub put_entry : IntentCache → String → CacheEntry → Bool → IntentCache
  put_entry c key entry true = record c { store = remove c.store key ++ (key, entry) ∷ [] }
  put_entry c key entry false =
      let (left, dropped) = evict c.maxsize c.store in
      record c { store = left ++ (key, entry) ∷ []; evictions = c.evictions + dropped }

  unfoldable pub put : IntentCache → String → String → String → ℕ → IntentCache
  put c intent_name query content now =
      let ttl = ttl_for c intent_name in
      if eqb ttl 0
      then c
      else let key = make_key intent_name query in
        put_entry c key (record { content = content; expires_at_ms = now + ttl * 1000 })
          (is_some (dict_get c.store key))

  unfoldable pub invalidate : IntentCache → String → String → IntentCache × Bool
  invalidate c intent_name query =
      let key = make_key intent_name query in
      if is_some (dict_get c.store key)
      then (record c { store = remove c.store key }, true)
      else (c, false)

unfoldable pub clear : IntentCache → IntentCache
clear c = record c { store = []; hits = 0; misses = 0; evictions = 0 }

-- `stats`, without the rounded rate of hits
pub record Stats : Type 0 where
  pub size : ℕ
  pub maxsize : ℕ
  pub hits : ℕ
  pub misses : ℕ
  pub evictions : ℕ

unfoldable pub stats : IntentCache → Stats
stats c = record {
  size = length c.store;
  maxsize = c.maxsize;
  hits = c.hits;
  misses = c.misses;
  evictions = c.evictions;
}
