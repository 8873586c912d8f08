-- ===== src/Orchestration.antt =====
-- zen_claw/agent/orchestration.py: from the result of intent routing to what is executed, and how.
pub mod Plan
pub mod Safety
mod Tests
