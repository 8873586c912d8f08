-- ===== src/ToolPolicy.antt =====
-- zen_claw/agent/tools/policy.py: layered allow and deny rules for tools.
pub mod Rules
pub mod Verdict
pub mod Scopes
mod Tests
pub use Rules.*
