-- ===== src/Security/Approval/Gate.antt =====
-- The queries of approval.py: the list of open approvals, and the gate before an execution.
use seclab.Prelude.{
  Bool, true, false, ◌&&◌, ◌||◌, Option, none, some, List, [], ◌∷◌, select, order_desc, ltb, ◌==◌,
  if◌then◌else◌,
}
use seclab.Prelude.Text.{Text, codes, is_empty, text_eq}
use seclab.Security.Models.{
  ApprovalStatus, pending, approved, rejected, expired, status_eq, ApprovalRequest,
}
use seclab.Db.{Exec, pure, ◌>>=◌, gets}
use seclab.Security.Approval.{is_subject, expire_if_needed}

pub record ApprovalGateResult : Type 0 where
  pub allowed : Bool
  pub message : Text
  pub approval : Option ApprovalRequest
  pub commit_required : Bool

-- The first row of `order_by(desc(created_at))`. Among rows with one time stamp the database may
-- choose; here it is the one inserted last.
unfoldable pub newest : List ApprovalRequest → Option ApprovalRequest
newest [] = none
newest (a ∷ rows) = elim (newest rows) [
  | none ↦ some a
  | some b ↦ if ltb a.created_at b.created_at then some b else some a
]

-- the loop of `list_pending`
unfoldable pub active_rows : List ApprovalRequest → Exec (List ApprovalRequest)
active_rows [] = pure []
active_rows (approval ∷ rows) = do
  (is_expired, a) ← expire_if_needed approval
  active ← active_rows rows
  pure (if is_expired then active else a ∷ active)

abbrev type_matches : Option Text → Text → Bool
type_matches none t = true
type_matches (some subject_type) t = is_empty subject_type || t == subject_type

unfoldable pub list_pending : Option Text → Exec (List ApprovalRequest)
unfolding active_rows
list_pending subject_type = do
  rows ← gets (λ s.
      select (λ a. a.status == pending && type_matches subject_type a.subject_type) s.approvals)
  active_rows (order_desc (λ a. a.created_at) rows)

abbrev closed : Text → Bool → ApprovalGateResult
closed message commit_required = record {
  allowed = false;
  message = message;
  approval = none;
  commit_required = commit_required;
}

-- the answer for the newest approval, once it had the chance to expire
unfoldable pub gate_for : Bool → ApprovalRequest → ApprovalStatus → ApprovalGateResult
gate_for commit_required a pending =
    closed (codes "Blocked: approval request is still pending.") commit_required
gate_for commit_required a rejected =
    closed (codes "Blocked: the latest human decision rejected this subject.") commit_required
gate_for commit_required a expired =
    closed (codes "Blocked: the approval expired before execution.") commit_required
gate_for commit_required a approved = record {
  allowed = true;
  message = codes "Valid human approval found.";
  approval = some a;
  commit_required = commit_required;
}

unfoldable pub gate_on : Option ApprovalRequest → Exec ApprovalGateResult
unfolding gate_for
gate_on none =
    pure (closed (codes "Blocked: no human approval has been recorded for this subject.") false)
gate_on (some latest) = do
  (commit_required, a) ← expire_if_needed latest
  pure (gate_for commit_required a a.status)

unfoldable pub evaluate_execution_gate : Text → Text → Exec ApprovalGateResult
unfolding gate_on
evaluate_execution_gate subject_type subject_id = do
  latest ← gets (λ s. newest (select (is_subject subject_type subject_id) s.approvals))
  gate_on latest
