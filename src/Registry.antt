-- ===== src/Registry.antt =====
-- The tool registry of zen_claw/agent/tools/registry.py: which tools are there, and what stands
-- between a call and the tool.
pub mod Results
pub mod State
pub mod Gates
pub mod Selector
pub mod Execute
pub mod Visible
pub mod Passage
pub mod Refusal
mod Tests
