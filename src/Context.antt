-- ===== src/Context.antt =====
-- zen_claw/agent/context_compression.py, the session of zen_claw/session/manager.py, and the history
-- that zen_claw/agent/loop.py builds from them for a model.
pub mod Session
pub mod Compressor
pub mod History
mod Rolling
mod Tests
