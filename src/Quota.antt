-- ===== src/Quota.antt =====
-- zen_claw/agent/tools/quota.py: rate limits for tenants and tools.
pub mod Window
pub mod Counting
pub mod Limits
pub mod Isolation
mod Tests
