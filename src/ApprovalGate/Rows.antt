-- ===== src/ApprovalGate/Rows.antt =====
-- The rows and the audit events of zen_claw/agent/approval_gate.py, counted.
use zen_claw.Base.{
  ℕ, ◌+◌, ◌≤◌, String, ◌≡◌, refl, Bool, false, ◌&&◌, some, [], ◌∷◌, ◌==◌, arith, eq_iff, count,
  find_first, All, Bool-cases, inl, inr, if◌then◌else◌,
}
use zen_claw.Base.Dict.{Dict, get as dict_get, put, remove, values}
use zen_claw.ApprovalGate.Records.{is_approved, PendingApproval, AuditEvent, audit_event}
use zen_claw.ApprovalGate.Gate.{is_stale, expire_rows}

unfoldable pub is_event : String → String → AuditEvent → Bool
is_event event_type approval_id e = e.event_type == event_type && e.approval_id == approval_id

module _ {Args : Type 0} where
  unfoldable pub is_usable : String → PendingApproval Args → Bool
  is_usable approval_id rec = rec.approval_id == approval_id && is_approved rec.status

  -- each record stands under its own identifier
  abbrev pub IsKeyed : Dict (PendingApproval Args) → Type 0
  IsKeyed d = All (λ row. row.1.approval_id ≡ row.0) d

  pub count-values-put :
      (p : PendingApproval Args → Bool) (d : Dict (PendingApproval Args)) (k : String)
      (v : PendingApproval Args)
      → count p (values (put d k v)) ≤ count p (values d) + (if p v then 1 else 0)
  unfolding count values put
  count-values-put p [] k v = ground arith
  count-values-put p ((j, w) ∷ d) k v = ground (arith, count-values-put p d k v)

  pub count-values-remove :
      (p : PendingApproval Args → Bool) (d : Dict (PendingApproval Args)) (k : String)
      → count p (values (remove d k)) ≤ count p (values d)
  unfolding count values remove
  count-values-remove p [] k = omega arith
  count-values-remove p ((j, w) ∷ d) k = ground (arith, count-values-remove p d k)

  pub count-values-remove_found :
      (p q : PendingApproval Args → Bool) (d : Dict (PendingApproval Args))
      (rec : PendingApproval Args)
      → IsKeyed d
      → find_first q (values d) ≡ some rec
      → count p (values (remove d rec.approval_id)) + (if p rec then 1 else 0) ≤ count p (values d)
  unfolding count values remove find_first
  count-values-remove_found p q [] rec h e = ground arith
  count-values-remove_found p q ((j, w) ∷ d) rec h e = elim (Bool-cases (q w)) [
    | inl f ↦
        let same : w ≡ rec = ground (arith, e, f) in
        ground (arith, same, h.0, eq_iff j rec.approval_id, count-values-remove p d rec.approval_id)
    | inr f ↦ ground (arith, count-values-remove_found p q d rec h.1 (ground (arith, e, f)))
  ]

  pub count-expire_rows :
      (ttl now : ℕ) (d : Dict (PendingApproval Args)) (id : String)
      → count (is_usable id) (values (expire_rows ttl now d).0) ≤ count (is_usable id) (values d)
  unfolding count values expire_rows is_usable is_stale is_approved
  count-expire_rows ttl now [] id = omega arith
  count-expire_rows ttl now ((j, w) ∷ d) id = ground (arith, count-expire_rows ttl now d id)

  pub expire_rows_events :
      (ttl now : ℕ) (d : Dict (PendingApproval Args)) (kind id : String)
      → ("approval.expired" == kind) ≡ false
      → count (is_event kind id) (expire_rows ttl now d).1 ≡ 0
  unfolding count expire_rows is_event audit_event
  expire_rows_events ttl now [] kind id h = refl
  expire_rows_events ttl now ((j, w) ∷ d) kind id h =
      ground (arith, expire_rows_events ttl now d kind id h)

  pub IsKeyed-put :
      (d : Dict (PendingApproval Args)) (k : String) (v : PendingApproval Args)
      → IsKeyed d
      → v.approval_id ≡ k
      → IsKeyed (put d k v)
  unfolding put
  IsKeyed-put [] k v h e = (e, tt)
  IsKeyed-put ((j, w) ∷ d) k v h e = elim (Bool-cases (j == k)) [
    | inl f ↦ rw f (ground (arith, e, f, eq_iff j k), h.1)
    | inr f ↦ rw f (h.0, IsKeyed-put d k v h.1 e)
  ]

  pub IsKeyed-remove :
      (d : Dict (PendingApproval Args)) (k : String) → IsKeyed d → IsKeyed (remove d k)
  unfolding remove
  IsKeyed-remove [] k h = tt
  IsKeyed-remove ((j, w) ∷ d) k h = elim (Bool-cases (j == k)) [
    | inl f ↦ rw f (IsKeyed-remove d k h.1)
    | inr f ↦ rw f (h.0, IsKeyed-remove d k h.1)
  ]

  pub IsKeyed-expire_rows :
      (ttl now : ℕ) (d : Dict (PendingApproval Args))
      → IsKeyed d
      → IsKeyed (expire_rows ttl now d).0
  unfolding expire_rows
  IsKeyed-expire_rows ttl now [] h = tt
  IsKeyed-expire_rows ttl now ((j, w) ∷ d) h = elim (Bool-cases (is_stale ttl now w)) [
    | inl f ↦ rw f (h.0, IsKeyed-expire_rows ttl now d h.1)
    | inr f ↦ rw f (h.0, IsKeyed-expire_rows ttl now d h.1)
  ]

  pub IsKeyed-get :
      (d : Dict (PendingApproval Args)) (k : String) (v : PendingApproval Args)
      → IsKeyed d
      → dict_get d k ≡ some v
      → v.approval_id ≡ k
  unfolding dict_get
  IsKeyed-get [] k v h e = ground arith
  IsKeyed-get ((j, w) ∷ d) k v h e = ground (arith, eq_iff j k, h.0, e, IsKeyed-get d k v h.1)
