-- ===== src/Registry/Refusal.antt =====
-- The envelope that `set_request_context` makes (zen_claw/agent/tools/registry.py).
use zen_claw.Base.{String, ◌≡◌, Option, arith}
use zen_claw.Gateway.Envelope.{Crypto, Envelope}
use zen_claw.Gateway.Signing.{IsHex, verify-ensure_security_envelope}
use zen_claw.Registry.State.{ToolRegistry, set_request_context, envelope_or_empty}
use zen_claw.Registry.Gates.{opened, context_gate, envelope_gate}

-- Whatever context a client hands to `set_request_context`, the envelope gate then lets every tool
-- through, if the digests of the machine are texts in hexadecimal.
pub set_request_context-opened :
    (k : Crypto)
    → IsHex k
    → (r : ToolRegistry) (context : Option Envelope) (name : String)
    → envelope_gate (set_request_context k r context) k name ≡ opened
unfolding envelope_gate context_gate set_request_context
set_request_context-opened k hex r context name =
    ground (arith, verify-ensure_security_envelope k hex (envelope_or_empty context))
