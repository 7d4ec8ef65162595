-- ===== src/Security/Approval.antt =====
-- packages/seclab-core/src/seclab/security/approval.py: `ApprovalWorkflowService`, the state machine
-- of approvals for any (subject_type, subject_id). An approval that a method is given is the row as
-- the session holds it; a method that changes it returns the changed row.
pub mod Gate
pub mod Frame
pub mod Operations
pub mod Invariant
pub mod Expiry
pub mod Outcome
pub mod Refusal
pub mod Clearance
use seclab.Prelude.{
  ℕ, ◌+◌, ◌-◌, ◌≡◌, Bool, true, false, not, ◌&&◌, Option, none, some, List, [], ◌∷◌, find, select,
  ltb, leb, ◌==◌, if◌then◌else◌,
}
use seclab.Prelude.Text.{Text, codes, is_empty, text_eq}
use seclab.Security.Models.{
  Error, Result, ok, err, http_error, Json, null, text, number, instant, ApprovalStatus, pending,
  approved, rejected, expired, status_eq, Datetime, naive, aware, ApprovalRequest, role_rank,
}
use seclab.Security.Audit.{log}
use seclab.Db.{Store, Exec, pure, raise, lift, ◌>>=◌, ◌>>◌, gets, modify, now, commit}
use seclab.Db.Rows.{put_row, next_id}

-- `_normalize_datetime`: the instant in UTC
abbrev pub normalize_datetime : Option Datetime → Option ℕ
normalize_datetime none = none
normalize_datetime (some (naive t)) = some t
normalize_datetime (some (aware t)) = some t

abbrev pub approval_id : ApprovalRequest → ℕ
approval_id a = a.id

unfoldable pub put_approval : ApprovalRequest → Store → Store
put_approval a s = record s { approvals = put_row approval_id a s.approvals }

unfoldable pub add_approval : ApprovalRequest → Store → Store
add_approval a s = record s { approvals = a ∷ s.approvals }

unfoldable pub is_subject : Text → Text → ApprovalRequest → Bool
is_subject subject_type subject_id a = a.subject_type == subject_type && a.subject_id == subject_id

-- the query for the pending approvals of a subject
unfoldable pub is_pending_for : Text → Text → ApprovalRequest → Bool
unfolding is_subject
is_pending_for subject_type subject_id a =
    is_subject subject_type subject_id a && a.status == pending

unfoldable pub expire : ApprovalRequest → ℕ → ApprovalRequest
expire a at = record a {
  status = expired;
  decision_reason = some (codes "Expired before a human decision.");
  decided_at = some at;
}

abbrev isoformat : Option Datetime → Json
isoformat none = null
isoformat (some t) = instant t

-- the part of `expire_if_needed` behind its two early returns
do_expire : ApprovalRequest → ℕ → Exec (Bool × ApprovalRequest)
do_expire a expires_at = do
  at ← now
  modify (put_approval (expire a at))
  log (codes "approval_expired") a.subject_type (some a.subject_id) (codes "system")
      (codes "expired") (codes "Expired before human decision.")
      ((codes "expires_at", instant (aware expires_at)) ∷ [])
  pure (true, expire a at)

-- the comparison with the clock, which an approval that never expires does not make
expire_by : ApprovalRequest → Option ℕ → Exec (Bool × ApprovalRequest)
unfolding do_expire
expire_by a none = pure (false, a)
expire_by a (some expires_at) = do
  current ← now
  if ltb current expires_at then pure (false, a) else do_expire a expires_at

-- `expire_if_needed`: whether the approval expired, and the row as it is then
unfoldable pub expire_if_needed : ApprovalRequest → Exec (Bool × ApprovalRequest)
unfolding expire_by
expire_if_needed a =
    if a.status == pending then expire_by a (normalize_datetime a.expires_at) else pure (false, a)

unfoldable pub expire_all : List ApprovalRequest → Exec (Unit {0})
expire_all [] = pure tt
expire_all (a ∷ rows) = do _ ← expire_if_needed a; expire_all rows

unfoldable pub expire_pending_for_subject : Text → Text → Exec (Unit {0})
expire_pending_for_subject subject_type subject_id = do
  pending_rows ← gets (λ s. select (is_pending_for subject_type subject_id) s.approvals)
  expire_all pending_rows

-- `request` behind the check for a pending approval
unfoldable pub open_request :
    Text → Text → Text → Text → Text → Option Datetime → Exec ApprovalRequest
open_request subject_type subject_id required_role requested_by rationale expires_at = do
  created ← now
  number_of_rows ← gets (λ s. next_id approval_id s.approvals)
  let approval : ApprovalRequest = record {
    id = number_of_rows;
    subject_type = subject_type;
    subject_id = subject_id;
    required_role = required_role;
    requested_by = requested_by;
    request_rationale = rationale;
    approver = none;
    approver_role = none;
    status = pending;
    decision_reason = none;
    created_at = created;
    expires_at = expires_at;
    decided_at = none;
  }
  modify (add_approval approval)
  log (codes "approval_requested") subject_type (some subject_id) requested_by (codes "pending")
      (codes "Sent for human validation.")
      ((codes "required_role", text required_role)
        ∷ (codes "request_rationale", text rationale)
        ∷ (codes "expires_at", isoformat expires_at)
        ∷ [])
  pure approval

-- `request`
unfoldable pub request : Text → Text → Text → Text → Text → Option Datetime → Exec ApprovalRequest
request subject_type subject_id required_role requested_by rationale expires_at = do
  expire_pending_for_subject subject_type subject_id
  found ← gets (λ s. find (is_pending_for subject_type subject_id) s.approvals)
  elim found [
    | some a ↦ raise (http_error 409 (codes "A pending approval already exists for this subject."))
    | none ↦ open_request subject_type subject_id required_role requested_by rationale expires_at
  ]

-- `_record_blocked`
unfoldable pub record_blocked : ApprovalRequest → Text → Text → List (Text × Json) → Exec (Unit {0})
record_blocked a actor reason metadata =
    log (codes "approval_decision_blocked") a.subject_type (some a.subject_id) actor
      (codes "blocked") reason metadata

abbrev pub status_name : ApprovalStatus → Text
status_name pending = codes "pending"
status_name approved = codes "approved"
status_name rejected = codes "rejected"
status_name expired = codes "expired"

-- the row as the decision leaves it
unfoldable pub decided_row :
    ApprovalRequest → Text → Text → ApprovalStatus → Text → ℕ → ApprovalRequest
decided_row a approver approver_role status_value rationale at = record a {
  approver = some approver;
  approver_role = some approver_role;
  status = status_value;
  decision_reason = some rationale;
  decided_at = some at;
}

-- a blocked decision is recorded and committed before it raises
unfoldable pub refuse : ApprovalRequest → Text → Text → List (Text × Json) → Exec ApprovalRequest
refuse a approver reason metadata = do
  record_blocked a approver reason metadata
  commit
  raise (http_error 403 reason)

unfoldable pub record_decision :
    ApprovalRequest → Text → Text → ApprovalStatus → Text → Exec ApprovalRequest
record_decision a approver approver_role status_value rationale = do
  at ← now
  modify (put_approval (decided_row a approver approver_role status_value rationale at))
  log (codes "approval_decided") a.subject_type (some a.subject_id) approver
      (if status_value == approved then codes "approved" else codes "rejected") rationale
      ((codes "approver_role", text approver_role) ∷ (codes "approval_id", number a.id) ∷ [])
  pure (decided_row a approver approver_role status_value rationale at)

-- the checks of `decide` behind expiry, in their order
unfoldable pub decide_pending :
    ApprovalRequest → Text → Text → ApprovalStatus → Text → Exec ApprovalRequest
decide_pending a approver approver_role status_value rationale =
    if a.requested_by == approver
    then refuse a approver (codes "Requester cannot decide their own approval.")
        ((codes "attempted_status", text (status_name status_value)) ∷ [])
    else do
      approver_rank ← lift (role_rank approver_role)
      required_rank ← lift (role_rank a.required_role)
      if ltb approver_rank required_rank
          then refuse a approver
              (codes "Approver's role does not meet the minimum required for this subject.")
              ((codes "approver_role", text approver_role)
                ∷ (codes "attempted_status", text (status_name status_value))
                ∷ [])
          else record_decision a approver approver_role status_value rationale

-- `decide`
unfoldable pub decide : ApprovalRequest → Text → Text → ApprovalStatus → Text → Exec ApprovalRequest
decide approval approver approver_role status_value rationale = do
  (is_expired, a) ← expire_if_needed approval
  if is_expired
      then (do
        commit
        raise (http_error 409 (codes "Approval expired; request a new human review.")))
      else if a.status == pending
      then decide_pending a approver approver_role status_value rationale
      else raise (http_error 409 (codes "Approval has already been decided."))

unfoldable pub approve : ApprovalRequest → Text → Text → Text → Exec ApprovalRequest
approve a approver approver_role rationale = decide a approver approver_role approved rationale

unfoldable pub reject : ApprovalRequest → Text → Text → Text → Exec ApprovalRequest
reject a approver approver_role rationale = decide a approver approver_role rejected rationale
