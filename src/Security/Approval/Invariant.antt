-- ===== src/Security/Approval/Invariant.antt =====
-- Invariants of the approval table: rows are numbered, a subject has at most one pending approval,
-- and an approved row was approved by another person of sufficient rank. The audit trail only grows.
use seclab.Prelude.{
  ℕ, ◌≡◌, ◌≢◌, ◌≤◌, refl, ap, true, false, none, some, List, ◌∷◌, ◌++◌, arith, find, count, All,
  count-zero, inl, inr, Bool-cases,
}
use seclab.Prelude.Text.{Text, text_eq, text_beq_iff}
use seclab.Security.Models.{
  ok, AuditLog, ApprovalStatus, pending, approved, status_eq, ApprovalRequest, role_rank,
}
use seclab.Security.Audit.{add_entry}
use seclab.Db.{Store}
use seclab.Db.Rows.{put_row, IsNumbered, put_row-IsNumbered, All-put_row, count-put_row, next_id}
use seclab.Security.Approval.{
  put_approval, add_approval, expire, decided_row, is_subject, is_pending_for, approval_id,
}
use seclab.Security.Approval.Outcome.{IsPermitted}
use seclab.Security.Approval.Frame.{IsPreserved, IsStable}

abbrev pub ApprovalsNumbered : Store → Type 0
ApprovalsNumbered t = IsNumbered approval_id t.approvals

abbrev pub OnePendingIn : List ApprovalRequest → Type 0
OnePendingIn rows =
    (subject_type subject_id : Text) → count (is_pending_for subject_type subject_id) rows ≤ 1

abbrev pub AtMostOnePending : Store → Type 0
AtMostOnePending t = OnePendingIn t.approvals

-- If the row is approved, its approver is known and is not the requester, and both roles are known
-- roles, the approver's of at least the required rank.
pub record IsReviewed (a : ApprovalRequest) : Type 0 where
  pub approver : Text
  pub approver_role : Text
  pub named : a.approver ≡ some approver
  pub role_named : a.approver_role ≡ some approver_role
  pub other : a.requested_by ≢ approver
  pub approver_rank : ℕ
  pub required_rank : ℕ
  pub approver_ranked : role_rank approver_role ≡ ok approver_rank
  pub required_ranked : role_rank a.required_role ≡ ok required_rank
  pub high_enough : required_rank ≤ approver_rank

abbrev pub FourEyesIn : List ApprovalRequest → Type 0
FourEyesIn rows = All (λ a. a.status ≡ approved → IsReviewed a) rows

abbrev pub FourEyes : Store → Type 0
FourEyes t = FourEyesIn t.approvals

-- The entries of `old` are still there, behind the newer ones.
abbrev pub TrailEndsIn : List AuditLog → List AuditLog → Type 0
TrailEndsIn old trail = (newer : List AuditLog) × (trail ≡ newer ++ old)

abbrev pub KeepsTrail : List AuditLog → Store → Type 0
KeepsTrail old t = TrailEndsIn old t.audit

pub ApprovalsNumbered-preserved : IsPreserved ApprovalsNumbered
unfolding add_entry put_approval add_approval
ApprovalsNumbered-preserved = record {
  entry = λ e t h. h;
  expiry = λ a at t free h. put_row-IsNumbered approval_id (expire a at) t.approvals h;
  decision = λ a b r st rat at t n p free h.
      put_row-IsNumbered approval_id (decided_row a b r st rat at) t.approvals h;
  opening = λ a t o h. (unfold next_id in o.numbered, h);
}

not_pending_for :
    (t i : Text) (a : ApprovalRequest) → a.status ≢ pending → is_pending_for t i a ≡ false
unfolding is_pending_for
not_pending_for t i a h = ground arith

count_written :
    (a : ApprovalRequest) (rows : List ApprovalRequest) (t i : Text)
    → a.status ≢ pending
    → count (is_pending_for t i) rows ≤ 1
    → count (is_pending_for t i) (put_row approval_id a rows) ≤ 1
count_written a rows t i n h =
    omega (arith, count-put_row approval_id (is_pending_for t i) a rows (not_pending_for t i a n))

subject_of :
    (t i : Text) (a : ApprovalRequest)
    → is_pending_for t i a ≡ true
    → is_pending_for t i ≡ is_pending_for a.subject_type a.subject_id
unfolding is_pending_for is_subject
subject_of t i a h =
    let same_type : a.subject_type ≡ t = (text_beq_iff a.subject_type t).0 (ground arith) in
    let same_id : a.subject_id ≡ i = (text_beq_iff a.subject_id i).0 (ground arith) in
    rw (same_type, same_id) refl

count_opened :
    (a : ApprovalRequest) (rows : List ApprovalRequest) (t i : Text)
    → find (is_pending_for a.subject_type a.subject_id) rows ≡ none
    → count (is_pending_for t i) rows ≤ 1
    → count (is_pending_for t i) (a ∷ rows) ≤ 1
unfolding count
count_opened a rows t i alone h = elim (Bool-cases (is_pending_for t i a)) [
  | inl mine ↦
      let none_yet : count (is_pending_for t i) rows ≡ 0 =
        count-zero (is_pending_for t i) rows (rw (subject_of t i a mine) alone) in
      rw mine (omega arith)
  | inr other ↦ rw other (omega arith)
]

pub AtMostOnePending-preserved : IsPreserved AtMostOnePending
unfolding add_entry put_approval add_approval
AtMostOnePending-preserved = record {
  entry = λ e t h. h;
  expiry = λ a at t free h ty i.
      count_written (expire a at) t.approvals ty i (unfold expire in cc) (h ty i);
  decision = λ a b r st rat at t n p free h ty i.
      count_written (decided_row a b r st rat at) t.approvals ty i (unfold decided_row in n)
        (h ty i);
  opening = λ a t o h ty i. count_opened a t.approvals ty i o.alone (h ty i);
}

decided_row-IsReviewed :
    (a : ApprovalRequest) (b r : Text) (st : ApprovalStatus) (rat : Text) (at : ℕ)
    → IsPermitted a b r
    → IsReviewed (decided_row a b r st rat at)
unfolding decided_row
decided_row-IsReviewed a b r st rat at p = record {
  approver = b;
  approver_role = r;
  named = refl;
  role_named = refl;
  other = λ e. ground (arith, p.other, text_beq_iff a.requested_by b, e);
  approver_rank = p.approver_rank;
  required_rank = p.required_rank;
  approver_ranked = p.approver_ranked;
  required_ranked = p.required_ranked;
  high_enough = ground (arith, p.high_enough);
}

pub FourEyes-preserved : IsPreserved FourEyes
unfolding add_entry put_approval add_approval
FourEyes-preserved = record {
  entry = λ e t h. h;
  expiry = λ a at t free h.
      All-put_row approval_id (λ a. a.status ≡ approved → IsReviewed a) (expire a at) t.approvals
        (λ e. absurd (unfold expire in ground (arith, e))) h;
  decision = λ a b r st rat at t n p free h.
      All-put_row approval_id (λ a. a.status ≡ approved → IsReviewed a)
        (decided_row a b r st rat at) t.approvals (λ _. decided_row-IsReviewed a b r st rat at p) h;
  opening = λ a t o h. (λ e. absurd (ground (arith, o.is_pending, e)), h);
}

pub KeepsTrail-preserved : (old : List AuditLog) → IsPreserved (KeepsTrail old)
unfolding add_entry put_approval add_approval
KeepsTrail-preserved old = record {
  entry = λ e t h. let (newer, same) = h in (e ∷ newer, ap (λ (l : List AuditLog). e ∷ l) same);
  expiry = λ a at t free h. h;
  decision = λ a b r st rat at t n p free h. h;
  opening = λ a t o h. h;
}

-- Both of two predicates on the tables.
abbrev pub Both : (Store → Type 0) → (Store → Type 0) → Store → Type 0
Both P Q t = P t × Q t

pub Both-preserved : {P Q : Store → Type 0} → IsPreserved P → IsPreserved Q → IsPreserved (Both P Q)
Both-preserved p q = record {
  entry = λ e t h. (p.entry e t h.0, q.entry e t h.1);
  expiry = λ a at t free h. (p.expiry a at t free h.0, q.expiry a at t free h.1);
  decision = λ a b r st rat at t n ok free h.
      (p.decision a b r st rat at t n ok free h.0, q.decision a b r st rat at t n ok free h.1);
  opening = λ a t o h. (p.opening a t o h.0, q.opening a t o h.1);
}

-- A preserved predicate is stable together with the numbering.
pub numbered_stable : {Q : Store → Type 0} → IsPreserved Q → IsStable (Both ApprovalsNumbered Q)
numbered_stable q = record {
  numbered = λ t h. h.0;
  preserved = Both-preserved ApprovalsNumbered-preserved q;
}
