-- ===== src/Gateway.antt =====
-- The signed envelope around the identity of a request, zen_claw/security_context.py.
pub mod Envelope
pub mod Signing
