-- ===== src/Recon/Approvals.antt =====
-- packages/modules/recon/src/seclab_recon/services.py: `ApprovalService`, which mirrors the
-- decisions of the approval workflow onto the status of the hypothesis.
use seclab.Prelude.{ℕ, ◌+◌, ◌*◌, Bool, Option, none, some, List, nat_beq, ◌==◌, if◌then◌else◌}
use seclab.Prelude.Text.{Text, codes, decimal}
use seclab.Prelude.Text
use seclab.Security.Models.{
  Error, Result, ok, err, http_error, value_error, Datetime, aware, ApprovalRequest, ApprovalStatus,
  User, status_eq,
}
use seclab.Security.Models
use seclab.Security.Approval
use seclab.Security.Approval.{approval_id}
use seclab.Security.Approval.Gate
use seclab.Security.Approval.Gate.{ApprovalGateResult}
use seclab.Db.{Exec, pure, raise, lift, ◌>>=◌, ◌>>◌, gets, modify, now, commit, or_404}
use seclab.Db.Rows.{get_row}
use seclab.Recon.Models.{
  Hypothesis, pending_approval, approved, rejected, executed, hypothesis_status_eq,
}
use seclab.Recon.Services.{hypothesis_id, set_hypothesis_status}

abbrev pub subject_type : Text
subject_type = codes "recon.hypothesis"

-- the deadline of a request: none, if no minutes are given
deadline : Option ℕ → Exec (Option Datetime)
deadline none = pure none
deadline (some minutes) =
    if nat_beq minutes 0
    then pure none
    else do current ← now; pure (some (aware (current + minutes * 60)))

unfoldable pub request : Hypothesis → Text → Text → Option ℕ → Exec ApprovalRequest
unfolding deadline
request hypothesis rationale requested_by expires_in_minutes =
    if hypothesis.status == executed
    then raise (http_error 400 (codes "Hypothesis already executed."))
    else do
      expires_at ← deadline expires_in_minutes
      approval ←
          Approval.request subject_type (decimal hypothesis.id) hypothesis.required_role
            requested_by rationale expires_at
      modify (set_hypothesis_status hypothesis.id pending_approval)
      commit
      pure approval

unfoldable pub list_pending : Exec (List ApprovalRequest)
list_pending = Gate.list_pending (some subject_type)

-- `int(subject_id)`
unfoldable pub int : Text → Result ℕ
int s = elim (Text.number s) [ none ↦ err value_error | some n ↦ ok n ]

-- the hypothesis follows the decision, if it is there
unfoldable pub mirror : ApprovalStatus → Option Hypothesis → Exec (Unit {0})
mirror status none = pure tt
mirror status (some h) =
    modify (set_hypothesis_status h.id (if status == Models.approved then approved else rejected))

unfoldable pub get_approval : ℕ → Exec ApprovalRequest
get_approval id = do
  row ← gets (λ s. get_row approval_id id s.approvals)
  or_404 row (codes "approval not found")

unfoldable pub decide : ℕ → Bool → Text → User → Exec ApprovalRequest
unfolding mirror int
decide id approve rationale approver = do
  approval ← get_approval id
  decided ←
      (if approve
        then Approval.approve approval approver.username approver.role rationale
        else Approval.reject approval approver.username approver.role rationale)
  number ← lift (int decided.subject_id)
  hypothesis ← gets (λ s. get_row hypothesis_id number s.hypotheses)
  mirror decided.status hypothesis
  commit
  pure decided

unfoldable pub evaluate_execution_gate : Hypothesis → Exec ApprovalGateResult
evaluate_execution_gate hypothesis =
    Gate.evaluate_execution_gate subject_type (decimal hypothesis.id)
