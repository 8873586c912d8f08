-- ===== src/Quota/Isolation.antt =====
-- What a call of `check_quota` of zen_claw/agent/tools/quota.py leaves alone.
use zen_claw.Base.{
  ℕ, String, ◌≡◌, refl, true, false, Option, none, some, arith, ◌==◌, Option-cases, inl, inr,
}
use zen_claw.Quota.Window.{
  QuotaEngine, Remote, history_of, check_key, tool_key, capability_key, applied_limit, check_quota,
}
use zen_claw.Quota.Limits.{check_other}

check_key_other :
    (e : QuotaEngine) (remote : Remote) (k key : String) (limit window_sec now : ℕ)
    → (k == key) ≡ false
    → history_of (check_key e remote k limit window_sec now).0.local key ≡ history_of e.local key
unfolding check_key
check_key_other e none k key limit window_sec now h =
    check_other e.local k key limit window_sec now h
check_key_other e (some allowed) k key limit window_sec now h = refl

-- A call touches the window of its tool and that of its capability, both of its tenant, and no
-- other; an engine that is disabled grants the call and touches none.
pub check_quota_other :
    (e : QuotaEngine) (tenant_id tool_name capability key : String) (capability_limit : Option ℕ)
    (remote remote₂ : Remote) (now now₂ : ℕ)
    → (tool_key tenant_id tool_name == key) ≡ false
    → (capability_key tenant_id capability == key) ≡ false
    → (history_of
          (check_quota e tenant_id tool_name capability capability_limit remote now remote₂
            now₂).0.local
          key
        ≡ history_of e.local key)
      × (e.enabled ≡ false
          → check_quota e tenant_id tool_name capability capability_limit remote now remote₂ now₂
            ≡ (e, true))
unfolding check_quota
check_quota_other e tenant_id tool_name capability key capability_limit remote remote₂ now now₂ h
      k =
    let first = check_key_other e remote (tool_key tenant_id tool_name) key 100 3600 now h in
    let e₁ = (check_key e remote (tool_key tenant_id tool_name) 100 3600 now).0 in
    let second = λ (limit : ℕ).
      check_key_other e₁ remote₂ (capability_key tenant_id capability) key limit 3600 now₂ k in
    (
      elim (Option-cases (applied_limit capability capability_limit)) [
        | inl o ↦ ground (arith, o, first)
        | inr (limit, o) ↦ ground (arith, o, first, second limit)
      ],
      λ off. ground (arith, off),
    )
