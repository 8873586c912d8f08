-- ===== src/Auth.antt =====
-- Who may call the API: zen_claw/auth.
pub mod ApiKeys
pub mod Roles
pub mod Revoking
pub mod Refinement
mod Tests
