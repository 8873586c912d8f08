-- ===== src/Gateway/Envelope.antt =====
-- `GatewaySubject`, `GatewayEnvelopeIssuer`, `extract_security_context`, `ensure_security_envelope`
-- and `verify_gateway_envelope` of zen_claw/security_context.py, with `sign_data` and
-- `verify_signature` of zen_claw/utils/crypto.py. An envelope is a dict; the entries of it that are
-- texts stand in a dict of texts, an entry that is missing reads as empty.
use zen_claw.Base.{
  String, Bool, true, false, not, Option, none, some, List, [], ◌∷◌, ◌==◌, if◌then◌else◌, map, keep,
}
use zen_claw.Base.Text.{strip, norm}
use zen_claw.Base.Strings.{or_text}
use zen_claw.Base.Dict.{Dict, put}
use zen_claw.Capability.Request.{text}

-- `policy_snapshot`: its flags, and its `policy_snapshot_hash`
pub record Snapshot : Type 0 where
  pub flags : Dict Bool
  pub hash : Option String

-- The entries of a security context.
pub record Context : Type 0 where
  pub entries : Dict String
  pub dev_profile : Bool
  pub trusted_local_only : Bool
  pub policy_snapshot : Option Snapshot
  pub capability_grants : Option (List String)

pub record GatewayMeta : Type 0 where
  pub gateway_instance : String
  pub policy_snapshot_hash : String
  pub request_hash : Option String

-- An envelope, or a flat context: then there is no inner context and no meta.
pub record Envelope : Type 0 where
  pub top : Context
  pub security_context : Option Context
  pub gateway_meta : Option GatewayMeta
  pub gateway_signature : Option String

-- `json.dumps` with sorted keys, SHA-256, HMAC-SHA256 under the machine's key, and the environment.
pub record Crypto : Type 0 where
  pub dumps : Envelope → String
  pub dumps_flags : Dict Bool → String
  pub sha256 : String → String
  pub hmac : String → String
  pub instance_id : String

abbrev pub or_empty : Option String → String
or_empty none = ""
or_empty (some v) = v

unfoldable pub is_blank : Snapshot → Bool
is_blank s = elim s.flags [ [] ↦ elim s.hash [ none ↦ true | some h ↦ false ] | other ↦ false ]

abbrev snapshot_or : Option Snapshot → Snapshot → Snapshot
snapshot_or none s = s
snapshot_or (some s) s' = if is_blank s then s' else s

abbrev pub no_snapshot : Snapshot
no_snapshot = record { flags = []; hash = none }

abbrev pub strip_hash : Option GatewayMeta → Option GatewayMeta
strip_hash none = none
strip_hash (some m) = some (record m { request_hash = none })

-- `canonical_gateway_envelope`
unfoldable pub canonical : Envelope → Envelope
canonical e = record e { gateway_meta = strip_hash e.gateway_meta; gateway_signature = none }

abbrev pub meta_hash : Option GatewayMeta → String
meta_hash none = ""
meta_hash (some m) = or_empty m.request_hash

abbrev meta_instance : Option GatewayMeta → String
meta_instance none = ""
meta_instance (some m) = m.gateway_instance

-- `if sec: return sec`, else the entries of the dict itself
unfoldable pub extract_security_context : Envelope → Context
extract_security_context e = elim e.security_context [ none ↦ e.top | some sec ↦ sec ]

abbrev with_hash : String → Option String → Snapshot → Snapshot
with_hash fresh none s = record s { hash = some fresh }
with_hash fresh (some h) s = s

-- `str(a or b).strip().lower() or b`
unfoldable pub norm_or : String → String → String
norm_or value other = or_text (norm (or_text value other)) other

abbrev first_grants : Option (List String) → Option (List String) → List String
first_grants (some grants) other = grants
first_grants none (some grants) = grants
first_grants none none = "*" ∷ []

module _ (k : Crypto) where
  -- `canonical_policy_snapshot_hash`
  unfoldable pub snapshot_hash : Snapshot → String
  snapshot_hash s = k.sha256 (k.dumps_flags s.flags)

  -- `canonical_gateway_envelope_hash`
  unfoldable pub envelope_hash : Envelope → String
  envelope_hash e = k.sha256 (k.dumps (canonical e))

  -- `sign_gateway_envelope`
  unfoldable pub sign : Envelope → String
  sign e = k.hmac (k.dumps (canonical e))

  -- `verify_gateway_envelope`: whether it is valid, and why not
  unfoldable pub verify_gateway_envelope : Envelope → Bool × String
  verify_gateway_envelope e =
      let signature = strip (or_empty e.gateway_signature) in
      let request_hash = strip (meta_hash e.gateway_meta) in
      if signature == ""
      then (false, "signature_missing")
      else if request_hash == ""
      then (false, "request_hash_missing")
      else if not (request_hash == envelope_hash e)
      then (false, "request_hash_mismatch")
      else if not (signature == sign e)
      then (false, "signature_invalid")
      else (true, "")

  -- `GatewaySubject.security_context`, and the instance that `issue` writes into it
  unfoldable pub context_of : Context → Snapshot → String → Context
  context_of subject snapshot issuer_instance =
      let entries = subject.entries in
      let subject_type = norm_or (text entries "subject_type") "agent" in
      let trust_tier = norm (or_text (text entries "trust_tier") (text entries "trust_level")) in
      let instance_now =
        strip (or_text (text entries "gateway_instance") (or_text issuer_instance k.instance_id)) in
      record {
        entries =
            put
              (put
                (put (put entries "policy_snapshot_hash" (snapshot_hash snapshot)) "subject_type"
                  subject_type)
                "trust_tier" trust_tier)
              "gateway_instance" instance_now;
        dev_profile = subject.dev_profile;
        trusted_local_only = subject.trusted_local_only;
        policy_snapshot = some snapshot;
        capability_grants = some (first_grants subject.capability_grants (some []));
      }

  -- the envelope of `issue`, before its hash and its signature
  unfoldable pub unsigned : Context → Snapshot → String → Envelope
  unsigned subject snapshot issuer_instance =
      let sec = context_of subject snapshot issuer_instance in
      let policy = with_hash (snapshot_hash snapshot) snapshot.hash snapshot in
      let policy_hash = or_text (or_empty policy.hash) (snapshot_hash policy) in
      let full = record sec {
        entries = put sec.entries "policy_snapshot_hash" policy_hash;
        policy_snapshot = some policy;
      } in
      record {
        top = full;
        security_context = some full;
        gateway_meta = some (record {
          gateway_instance = text sec.entries "gateway_instance";
          policy_snapshot_hash = policy_hash;
          request_hash = none;
        });
        gateway_signature = none;
      }

  unfoldable pub hashed : Envelope → Envelope
  hashed e = elim e.gateway_meta [
    | none ↦ e
    | some m ↦ record e { gateway_meta = some (record m { request_hash = some (envelope_hash e) }) }
  ]

  -- `GatewayEnvelopeIssuer.issue`
  unfoldable pub issue : Context → Snapshot → String → Envelope
  issue subject snapshot issuer_instance =
      let e = hashed (unsigned subject snapshot issuer_instance) in
      record e { gateway_signature = some (sign e) }

  -- `ensure_security_envelope`, of a dict alone
  unfoldable pub subject_of : Envelope → Context
  subject_of raw =
      let sec = extract_security_context raw in
      let s = sec.entries in
      let r = raw.top.entries in
      record {
        entries =
            ("trace_id", strip (or_text (text s "trace_id") (text r "trace_id")))
            ∷ ("channel", norm (text s "channel"))
            ∷ ("sender_id", strip (text s "sender_id"))
            ∷ ("chat_id", strip (text s "chat_id"))
            ∷ ("tenant_id", norm_or (text s "tenant_id") "default")
            ∷ ("workspace_id", strip (text s "workspace_id"))
            ∷ ("agent_profile", norm_or (text s "agent_profile") "default")
            ∷ ("role", norm (text s "role"))
            ∷ ("trust_level", norm_or (text s "trust_level") "trusted_local")
            ∷ ("origin_surface", norm (or_text (text s "origin_surface") (text s "channel")))
            ∷ ("channel_role", norm (text s "channel_role"))
            ∷ ("workspace_path", strip (text s "workspace_path"))
            ∷ (
              "gateway_instance",
              strip (
                  or_text (text s "gateway_instance")
                    (or_text (text r "gateway_instance") k.instance_id)),
            )
            ∷ (
              "subject_type",
              norm_or (or_text (text r "subject_type") (text s "subject_type")) "agent",
            )
            ∷ (
              "trust_tier",
              norm (
                  or_text (text r "trust_tier")
                    (or_text (text s "trust_tier") (text s "trust_level"))),
            )
            ∷ [];
        dev_profile = sec.dev_profile;
        trusted_local_only = sec.trusted_local_only;
        policy_snapshot = none;
        capability_grants = some (
            keep (λ g. not (g == ""))
              (map norm (first_grants raw.top.capability_grants sec.capability_grants)));
      }

  unfoldable pub snapshot_of : Envelope → Snapshot
  snapshot_of raw =
      let sec = extract_security_context raw in
      let s = snapshot_or raw.top.policy_snapshot (snapshot_or sec.policy_snapshot no_snapshot) in
      if is_blank s then s else with_hash (snapshot_hash s) s.hash s

  unfoldable pub issuer_of : Envelope → String
  issuer_of raw =
      let sec = extract_security_context raw in
      strip (
        or_text (meta_instance raw.gateway_meta) (
          or_text (text sec.entries "gateway_instance")
            (or_text (text raw.top.entries "gateway_instance") k.instance_id)))

  unfoldable pub ensure_security_envelope : Envelope → Envelope
  ensure_security_envelope raw = issue (subject_of raw) (snapshot_of raw) (issuer_of raw)
