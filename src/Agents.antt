-- ===== src/Agents.antt =====
-- Which agent profile serves a request: zen_claw/agent/router.py and zen_claw/agent/pool.py.
pub mod Names
pub mod Router
pub mod Routes
mod Tests
