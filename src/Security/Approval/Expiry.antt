-- ===== src/Security/Approval/Expiry.antt =====
-- When an approval expires, and what that changes.
use seclab.Prelude.{
  ℕ, ◌+◌, ◌≡◌, ◌≢◌, ◌≤◌, ◌⊎◌, refl, Bool, true, false, ◌&&◌, Option, none, some, [], ◌∷◌, arith,
  ltb, leb, ◌==◌, inl, inr, Bool-cases,
}
use seclab.Prelude.Text.{codes}
use seclab.Security.Models.{
  Result, ok, instant, aware, AuditLog, pending, status_eq, same_status_iff, ApprovalRequest,
}
use seclab.Security.Audit.{add_entry, log}
use seclab.Db.{Session, pure, ◌>>=◌, modify, now}
use seclab.Security.Approval.{normalize_datetime, put_approval, expire, expire_by, expire_if_needed}

abbrev due_by : Option ℕ → ℕ → Bool
due_by none current = false
due_by (some expires_at) current = leb expires_at current

-- The approval is pending and its deadline is not after the next reading of the clock.
abbrev pub is_due : ApprovalRequest → Session → Bool
is_due a s = a.status == pending && due_by (normalize_datetime a.expires_at) (s.clock s.ticks)

abbrev pub expiry_entry : ApprovalRequest → ℕ → ℕ → AuditLog
expiry_entry a expires_at created = record {
  event_type = codes "approval_expired";
  entity_type = a.subject_type;
  entity_id = some a.subject_id;
  actor = codes "system";
  decision = codes "expired";
  reason = codes "Expired before human decision.";
  metadata = (codes "expires_at", instant (aware expires_at)) ∷ [];
  created_at = created;
}

-- the session after the expiry of `a`, whose deadline was `expires_at`
abbrev pub after_expiry : ApprovalRequest → ℕ → Session → Session
after_expiry a expires_at s = record s {
  work =
      add_entry (expiry_entry a expires_at (s.clock (s.ticks + 1 + 1)))
        (put_approval (expire a (s.clock (s.ticks + 1))) s.work);
  ticks = s.ticks + 1 + 1 + 1;
}

module _ (a : ApprovalRequest) (s : Session) where
  expire_by_due :
      (expires_at : ℕ)
      → ltb (s.clock s.ticks) expires_at ≡ false
      → expire_by a (some expires_at) s
        ≡ (after_expiry a expires_at s, ok (true, expire a (s.clock (s.ticks + 1))))
  unfolding expire_by ◌>>=◌ now modify log
  expire_by_due e late = rw late refl

  expire_by_early :
      (deadline : Option ℕ)
      → due_by deadline (s.clock s.ticks) ≡ false
      → (n : ℕ) × (expire_by a deadline s ≡ (record s { ticks = n }, ok (false, a)))
  unfolding expire_by ◌>>=◌ now
  expire_by_early none h = (s.ticks, refl)
  expire_by_early (some e) h =
      let early : ltb (s.clock s.ticks) e ≡ true = ground arith in (s.ticks + 1, rw early refl)

  expire_if_needed_pending :
      a.status ≡ pending → expire_if_needed a ≡ expire_by a (normalize_datetime a.expires_at)
  unfolding expire_if_needed
  expire_if_needed_pending h = ground arith

  pub expire_if_needed_settled : a.status ≢ pending → expire_if_needed a s ≡ (s, ok (false, a))
  unfolding expire_if_needed pure
  expire_if_needed_settled h = ground arith

  -- An approval that is due expires: its row is closed, the expiry is put on record, and nothing
  -- is committed yet.
  pub expire_if_needed_due :
      (expires_at : ℕ)
      → a.status ≡ pending
      → normalize_datetime a.expires_at ≡ some expires_at
      → expires_at ≤ s.clock s.ticks
      → expire_if_needed a s
        ≡ (after_expiry a expires_at s, ok (true, expire a (s.clock (s.ticks + 1))))
  expire_if_needed_due e p d le =
      rw (expire_if_needed_pending p, d) (expire_by_due e (ground arith))

  -- One that is not due is left alone; the clock may have been read.
  pub expire_if_needed_early :
      is_due a s ≡ false
      → (n : ℕ) × (expire_if_needed a s ≡ (record s { ticks = n }, ok (false, a)))
  expire_if_needed_early h = elim (Bool-cases (a.status == pending)) [
    | inl p ↦
        rw (expire_if_needed_pending ((same_status_iff a.status pending).0 p))
          (expire_by_early (normalize_datetime a.expires_at) (ground (arith, p)))
    | inr n ↦ (s.ticks, expire_if_needed_settled (λ e. ground (arith, n, e)))
  ]

-- The two ways that `expire_if_needed` can go; it never raises.
pub record IsKept (a : ApprovalRequest) (s s' : Session) (r : Result (Bool × ApprovalRequest))
    : Type 0 where
  pub early : is_due a s ≡ false
  pub result : r ≡ ok (false, a)
  pub same_work : s'.work ≡ s.work
  pub same_saved : s'.saved ≡ s.saved

pub record IsExpired (a : ApprovalRequest) (s s' : Session) (r : Result (Bool × ApprovalRequest))
    : Type 0 where
  pub expires_at : ℕ
  pub due : is_due a s ≡ true
  pub result : r ≡ ok (true, expire a (s.clock (s.ticks + 1)))
  pub state : s' ≡ after_expiry a expires_at s

due_deadline :
    (deadline : Option ℕ) (current : ℕ)
    → due_by deadline current ≡ true
    → (e : ℕ) × (deadline ≡ some e) × (e ≤ current)
due_deadline none current h = absurd (ground (arith, h))
due_deadline (some e) current h = (e, refl, ground arith)

pub expire_if_needed_cases :
    (a : ApprovalRequest) (s : Session)
    → IsKept a s (expire_if_needed a s).0 (expire_if_needed a s).1
      ⊎ IsExpired a s (expire_if_needed a s).0 (expire_if_needed a s).1
expire_if_needed_cases a s = elim (Bool-cases (is_due a s)) [
  | inl due ↦
      let (e, d, le) =
        due_deadline (normalize_datetime a.expires_at) (s.clock s.ticks) (ground (arith, due)) in
      let out =
        expire_if_needed_due a s e ((same_status_iff a.status pending).0 (ground (arith, due))) d
          le in
      inr (rw out (record { expires_at = e; due = due; result = refl; state = refl }))
  | inr early ↦
      let (n, out) = expire_if_needed_early a s early in
      inl (rw out (record { early = early; result = refl; same_work = refl; same_saved = refl }))
]
