-- ===== src/ApprovalGate.antt =====
-- zen_claw/agent/approval_gate.py: tool calls that wait for a user's confirmation.
pub mod Records
pub mod Gate
pub mod Rows
pub mod Ledger
pub mod Lifecycle
mod Tests
