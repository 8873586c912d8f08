-- ===== src/Routing.antt =====
-- zen_claw/channels/routing.py: which agent answers a user of a channel.
pub mod Store
pub mod Bulk
pub mod AuditLog
pub mod Keys
mod Parsing
pub mod Writes
pub mod Rollback
pub mod Clearing
mod Tests
