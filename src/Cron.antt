-- ===== src/Cron.antt =====
-- zen_claw/cron: scheduled jobs.
pub mod Jobs
pub mod Service
pub mod Edits
pub mod Timing
pub mod Ticks
pub mod Limits
mod Tests
