-- ===== src/Gateway/Signing.antt =====
-- What the hash and the signature of an envelope show (zen_claw/security_context.py).
use zen_claw.Base.{String, ◌≡◌, true, false, Option, none, some, ◌==◌, arith, eq_iff}
use zen_claw.Base.Text.{strip}
use zen_claw.Gateway.Envelope.{
  Envelope, Context, Snapshot, GatewayMeta, Crypto, canonical, envelope_hash, sign,
  verify_gateway_envelope, hashed, unsigned, issue, ensure_security_envelope,
}

-- Digests in hexadecimal are texts without white space, and not empty.
pub record IsHex (k : Crypto) : Type 0 where
  pub sha256_strip : (s : String) → strip (k.sha256 s) ≡ k.sha256 s
  pub sha256_some : (s : String) → (k.sha256 s == "") ≡ false
  pub hmac_strip : (s : String) → strip (k.hmac s) ≡ k.hmac s
  pub hmac_some : (s : String) → (k.hmac s == "") ≡ false

abbrev bare : Context → Option Context → GatewayMeta → Envelope
bare top inner m = record {
  top = top;
  security_context = inner;
  gateway_meta = some (record m { request_hash = none });
  gateway_signature = none;
}

-- an envelope with its own hash and its own signature
abbrev sealed : Crypto → Context → Option Context → GatewayMeta → Envelope
sealed k top inner m = record {
  top = top;
  security_context = inner;
  gateway_meta = some (record m { request_hash = some (k.sha256 (k.dumps (bare top inner m))) });
  gateway_signature = some (k.hmac (k.dumps (bare top inner m)));
}

module _ (k : Crypto) (hex : IsHex k) where
  open hex use {sha256_strip, sha256_some, hmac_strip, hmac_some}

  verify-sealed :
      (top : Context) (inner : Option Context) (m : GatewayMeta)
      → verify_gateway_envelope k (sealed k top inner m) ≡ (true, "")
  unfolding verify_gateway_envelope envelope_hash sign canonical
  verify-sealed top inner m =
      let text : String = k.dumps (bare top inner m) in
      ground (
        arith,
        sha256_strip text,
        sha256_some text,
        hmac_strip text,
        hmac_some text,
        eq_iff (k.sha256 text) (k.sha256 text),
        eq_iff (k.hmac text) (k.hmac text),
      )

  -- Every envelope that the issuer makes is valid.
  verify-issue :
      (subject : Context) (snapshot : Snapshot) (issuer : String)
      → verify_gateway_envelope k (issue k subject snapshot issuer) ≡ (true, "")
  unfolding issue hashed unsigned envelope_hash sign canonical
  verify-issue subject snapshot issuer =
      verify-sealed _ _
        (record { gateway_instance = _; policy_snapshot_hash = _; request_hash = none })

  -- Whatever dict is handed to `ensure_security_envelope`, unsigned, forged or altered since it was
  -- signed, the envelope that comes out is valid: no later check of it can tell where it came from.
  pub verify-ensure_security_envelope :
      (raw : Envelope) → verify_gateway_envelope k (ensure_security_envelope k raw) ≡ (true, "")
  unfolding ensure_security_envelope
  verify-ensure_security_envelope raw = verify-issue _ _ _
