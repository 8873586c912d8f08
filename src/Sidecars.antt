-- ===== src/Sidecars.antt =====
-- zen_claw/runtime/sidecar_supervisor.py: the supervisor of the local sidecar processes.
pub mod Supervisor
pub mod Listing
mod Breaker
mod Tests
