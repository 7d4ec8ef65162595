-- ===== src/Recon/Executions.antt =====
-- packages/modules/recon/src/seclab_recon/services.py: `ExecutionService`, `FindingService` and
-- `can_approve`.
use seclab.Prelude.{
  ℕ, Bool, Option, none, some, List, [], ◌∷◌, select, order_desc, leb, nat_beq, ◌==◌, if◌then◌else◌,
}
use seclab.Prelude.Text.{Text, codes, decimal}
use seclab.Security.Models.{http_error, number, User, ApprovalRequest, role_rank}
use seclab.Security.Audit.{log}
use seclab.Security.Evidence
use seclab.Db.{Store, Exec, pure, raise, lift, ◌>>=◌, ◌>>◌, gets, modify, now, commit, or_404}
use seclab.Db.Rows.{get_row, update_row, next_id}
use seclab.Recon.Models.{
  Hypothesis, executed, Execution, queued, completed, execution_status_eq, Finding, new,
}
use seclab.Recon.Services.{set_hypothesis_status, get_hypothesis}
use seclab.Recon.Approvals.{evaluate_execution_gate}

pub record ExecutionComplete : Type 0 where
  pub output_summary : Text
  pub finding_title : Text
  pub finding_description : Text
  pub finding_severity : Text

abbrev pub execution_id : Execution → ℕ
execution_id e = e.id

abbrev pub finding_id : Finding → ℕ
finding_id f = f.id

unfoldable pub add_execution : Execution → Store → Store
add_execution e s = record s { executions = e ∷ s.executions }

-- the row that `complete` writes
abbrev pub completed_row : Execution → Text → ℕ → Execution
completed_row execution summary at = record execution {
  status = completed;
  output_summary = some summary;
  completed_at = some at;
}

-- the three columns that `complete` writes
unfoldable pub complete_row : ℕ → Text → ℕ → Store → Store
complete_row id summary at s = record s {
  executions = update_row execution_id id (λ e. completed_row e summary at) s.executions;
}

unfoldable pub add_finding : Finding → Store → Store
add_finding f s = record s { findings = f ∷ s.findings }

-- an execution that the gate blocks is recorded and committed before it raises
unfoldable pub block_execution : Hypothesis → Text → Text → Exec Execution
block_execution hypothesis requested_by message = do
  log (codes "execution_blocked") (codes "recon.hypothesis") (some (decimal hypothesis.id))
      requested_by (codes "blocked") message []
  commit
  raise (http_error 403 message)

-- `gate.approval.approver if gate.approval else None`
abbrev pub approver_of : Option ApprovalRequest → Option Text
approver_of none = none
approver_of (some a) = a.approver

unfoldable pub enqueue : Hypothesis → Text → Text → Option ApprovalRequest → Exec Execution
enqueue hypothesis action_plan requested_by approval = do
  started ← now
  created ← now
  id ← gets (λ s. next_id execution_id s.executions)
  let execution : Execution = record {
    id = id;
    hypothesis_id = hypothesis.id;
    requested_by = requested_by;
    approved_by = approver_of approval;
    status = queued;
    action_plan = action_plan;
    output_summary = none;
    created_at = created;
    started_at = some started;
    completed_at = none;
  }
  modify (add_execution execution)
  log (codes "execution_queued") (codes "recon.execution") none requested_by (codes "queued")
      (codes "Execution authorized by a valid human approval.")
      ((codes "hypothesis_id", number hypothesis.id) ∷ [])
  commit
  pure execution

unfoldable pub queue : Hypothesis → Text → Text → Exec Execution
queue hypothesis action_plan requested_by = do
  gate ← evaluate_execution_gate hypothesis
  if gate.allowed
      then enqueue hypothesis action_plan requested_by gate.approval
      else block_execution hypothesis requested_by gate.message

unfoldable pub get_execution : ℕ → Exec Execution
get_execution id = do
  row ← gets (λ s. get_row execution_id id s.executions)
  or_404 row (codes "execution not found")

abbrev pub new_finding : Hypothesis → Execution → ExecutionComplete → ℕ → ℕ → Finding
new_finding hypothesis execution payload id created = record {
  id = id;
  program_id = hypothesis.program_id;
  target_id = hypothesis.target_id;
  hypothesis_id = hypothesis.id;
  execution_id = execution.id;
  title = payload.finding_title;
  description = payload.finding_description;
  severity = payload.finding_severity;
  status = new;
  created_at = created;
}

module _ (sha256 : Text → Text) where
  -- `complete` for an execution that is still open
  unfoldable pub record_completion :
      Execution → Hypothesis → ExecutionComplete → Text → Exec Finding
  record_completion execution hypothesis payload actor = do
    at ← now
    modify (complete_row execution.id payload.output_summary at)
    modify (set_hypothesis_status hypothesis.id executed)
    created ← now
    id ← gets (λ s. next_id finding_id s.findings)
    modify (add_finding (new_finding hypothesis execution payload id created))
    _ ←
        Evidence.store sha256 (codes "recon") (codes "execution") (decimal execution.id)
          (codes "execution_output") payload.output_summary (codes "text") none []
    log (codes "execution_completed") (codes "recon.execution") (some (decimal execution.id)) actor
        (codes "completed") (codes "Execution completed and finding recorded.")
        ((codes "finding_id", number id) ∷ [])
    commit
    pure (new_finding hypothesis execution payload id created)

  unfoldable pub complete : Execution → ExecutionComplete → Text → Exec Finding
  complete execution payload actor =
      if execution.status == completed
      then raise (http_error 409 (codes "Execution has already been completed."))
      else do
        hypothesis ← get_hypothesis execution.hypothesis_id
        record_completion execution hypothesis payload actor

unfoldable pub list_executions : ℕ → Exec (List Execution)
list_executions hypothesis = gets λ s.
    order_desc (λ e. e.created_at) (select (λ e. nat_beq e.hypothesis_id hypothesis) s.executions)

unfoldable pub list_findings : ℕ → Exec (List Finding)
list_findings program = gets λ s. select (λ f. nat_beq f.program_id program) s.findings

unfoldable pub can_approve : User → Hypothesis → Exec Bool
can_approve user hypothesis = do
  have ← lift (role_rank user.role)
  required ← lift (role_rank hypothesis.required_role)
  pure (leb required have)
