-- ===== src/Capability.antt =====
-- Capability checks of zen_claw/agent/tools/capability_policy.py: which resource a tool call asks
-- for, and whether the security policy grants it.
pub mod Request
pub mod Policy
pub mod Files
pub mod Remote
pub mod Records
pub mod Evaluate
pub mod HardenedFiles
pub mod Commands
pub mod Hardening
pub mod ZeroTrust
pub mod Boundary
pub mod Isolation
mod Tests
