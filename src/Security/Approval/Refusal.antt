-- ===== src/Security/Approval/Refusal.antt =====
-- What a refused decision leaves behind.
use seclab.Prelude.{ℕ, ◌≡◌, refl, ap, some, List, arith, ◌==◌, inl, inr, Bool-cases}
use seclab.Prelude.Text.{Text, codes}
use seclab.Security.Models.{
  err, http_error, Json, AuditLog, ApprovalStatus, pending, status_eq, same_status_iff,
  ApprovalRequest,
}
use seclab.Security.Audit.{add_entry, log}
use seclab.Db.{Store, Session, raise, ◌>>=◌, modify, now, commit}
use seclab.Security.Approval.{decide_pending, decide, refuse, record_blocked}
use seclab.Security.Approval.Expiry.{is_due}
use seclab.Security.Approval.Outcome.{
  decide_expired, decide_on_pending, decide_settled, refuse_err, decide_pending_permitted,
  decide_pending_cases, record_decision_lem,
}

module _ (a : ApprovalRequest) (approver approver_role : Text) (status : ApprovalStatus)
    (rationale : Text) where
  -- The record that a refused attempt leaves behind for good.
  pub record IsOnRecord (reason : Text) (s s' : Session) : Type 0 where
    pub entry : AuditLog
    pub committed : s'.saved ≡ add_entry entry s.work
    pub event : entry.event_type ≡ codes "approval_decision_blocked"
    pub subject : entry.entity_id ≡ some a.subject_id
    pub actor : entry.actor ≡ approver
    pub because : entry.reason ≡ reason

  abbrev blocked_entry : Text → List (Text × Json) → ℕ → AuditLog
  blocked_entry reason m at = record {
    event_type = codes "approval_decision_blocked";
    entity_type = a.subject_type;
    entity_id = some a.subject_id;
    actor = approver;
    decision = codes "blocked";
    reason = reason;
    metadata = m;
    created_at = at;
  }

  refuse-IsOnRecord :
      (reason : Text) (m : List (Text × Json)) (s s' : Session)
      → s'.work ≡ s.work
      → IsOnRecord reason s (refuse a approver reason m s').0
  unfolding refuse record_blocked ◌>>=◌ log commit raise now modify
  refuse-IsOnRecord reason m s s' same = record {
    entry = blocked_entry reason m (s'.clock s'.ticks);
    committed = ap (λ (t : Store). add_entry (blocked_entry reason m (s'.clock s'.ticks)) t) same;
    event = refl;
    subject = refl;
    actor = refl;
    because = refl;
  }

  pending_refusal :
      (reason : Text) (s s' : Session)
      → s'.work ≡ s.work
      → (decide_pending a approver approver_role status rationale s').1
        ≡ err (http_error 403 reason)
      → IsOnRecord reason s (decide_pending a approver approver_role status rationale s').0
  pending_refusal reason s s' same h =
      elim (decide_pending_cases a approver approver_role status rationale s') [
        | inl permitted ↦ absurd (
            ground (
              arith,
              h,
              decide_pending_permitted a approver approver_role status rationale s' permitted,
              (record_decision_lem a approver approver_role status rationale s').0,
            ))
        | inr (inl (why, m, refused)) ↦
            let matched : why ≡ reason =
              ground (
                arith,
                h,
                refused,
                refuse_err a approver approver_role status rationale s' why m,
              ) in
            rw refused (rw (← matched) (refuse-IsOnRecord why m s s' same))
        | inr (inr unknown) ↦ absurd (ground (arith, h, unknown))
      ]

  -- Every decision that is refused with status 403 stays on record: the committed tables are those
  -- at work before the attempt, with one audit entry more that names the approval's subject, the
  -- person who tried and the reason given.
  pub decide-IsOnRecord :
      (reason : Text) (s : Session)
      → (decide a approver approver_role status rationale s).1 ≡ err (http_error 403 reason)
      → IsOnRecord reason s (decide a approver approver_role status rationale s).0
  decide-IsOnRecord reason s h = elim (Bool-cases (is_due a s)) [
    | inl due ↦
        absurd (ground (arith, h, decide_expired a approver approver_role status rationale s due))
    | inr early ↦ elim (Bool-cases (a.status == pending)) [
      | inl p ↦
          let (s', same, run) =
            decide_on_pending a approver approver_role status rationale s early
              ((same_status_iff a.status pending).0 p) in
          rw run (pending_refusal reason s s' same (ground (arith, h, run)))
      | inr settled ↦ absurd (
          ground (
            arith,
            h,
            decide_settled a approver approver_role status rationale s
                (λ e. ground (arith, settled, e)),
          ))
    ]
  ]
