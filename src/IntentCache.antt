-- ===== src/IntentCache.antt =====
-- zen_claw/agent/intent_cache.py: the cache of direct replies.
pub mod Cache
pub mod Reads
pub mod Size
pub mod Recency
mod Tests
