-- ===== src/Memory.antt =====
-- zen_claw/agent/memory_ternary.py: recall of memories in three tiers.
pub mod Ternary
mod Tiers
mod Tests
