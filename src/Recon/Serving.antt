-- ===== src/Recon/Serving.antt =====
-- One rule for each execution method of recon, and for the serving of requests: an
-- invariant of the tables that each write keeps holds after any requests.
use seclab.Prelude.{
  ◌≡◌, refl, Bool, true, false, some, List, [], ◌∷◌, Any, Bool-cases, inl, inr, ◌==◌,
}
use seclab.Prelude.Text.{Text, codes, decimal}
use seclab.Security.Models.{Result, ok, err, ApprovalRequest, User}
use seclab.Security.Scope.{ProgramPolicy, model_validate}
use seclab.Security.Evidence
use seclab.Security.Evidence.{add_evidence}
use seclab.Security.Approval.Clearance.{IsCleared, evaluate_execution_gate-IsCleared}
use seclab.Security.Approval.Operations.{list_pending-Holds, evaluate_execution_gate-Holds}
use seclab.Db.{Store, Session, Exec, pure, ◌>>=◌, gets, modify, now}
use seclab.Db.Keeps.{
  Holds, Holds-bind, Keeps, Keeps-bind, Keeps-commit, keeps_rules, Keeps-pure, Keeps-raise,
  Keeps-handle,
}
use seclab.Recon.Models.{
  Hypothesis, Execution, completed, hypothesis_status_eq, execution_status_eq,
}
use seclab.Recon.Services
use seclab.Recon.Services.{program_id, target_id, hypothesis_id, set_hypothesis_status}
use seclab.Recon.Approvals
use seclab.Recon.Approvals.{subject_type}
use seclab.Recon.Executions
use seclab.Recon.Executions.{
  ExecutionComplete, execution_id, finding_id, add_execution, complete_row, add_finding,
  new_finding, approver_of,
}
use seclab.Recon.Routes
use seclab.Recon.Routes.{Request}
use seclab.Recon.Frame.{
  IsReconStable, lookup-Holds, finish-Keeps, log_rule, create_program-Keeps, create_target-Holds,
  create_hypothesis-Holds,
}
use seclab.Recon.Approving.{request_approval-Keeps, decide_approval-Holds}

module _ {bracketed_ok : Text → Bool} {Q : Store → Type 0} (rs : IsReconStable bracketed_ok Q) where
  enqueue-Holds :
      (h : Hypothesis) (action_plan by : Text) (a : ApprovalRequest) (s : Session)
      → IsCleared subject_type (decimal h.id) s.work a
      → Holds Q s
      → Holds Q (Executions.enqueue h action_plan by (some a) s).0
  unfolding Executions.enqueue ◌>>=◌ now gets modify
  enqueue-Holds h action_plan by a s cleared q = (finish-Keeps rs _ _ _ _ _ _ _ _).after _ (record {
    work =
        rs.execution _ s.work
          (record {
            numbered = refl;
            open_status = refl;
            approval = a;
            cleared = cleared;
            approver = refl;
          })
          q.work;
    saved = q.saved;
  })

  block_execution-Keeps :
      (h : Hypothesis) (by message : Text) → Keeps Q (Executions.block_execution h by message)
  unfolding Executions.block_execution
  block_execution-Keeps h by message = search (keeps_rules, log_rule rs)

  pub queue-Holds :
      (h : Hypothesis) (action_plan by : Text) (s : Session)
      → Holds Q s
      → Holds Q (Executions.queue h action_plan by s).0
  unfolding Executions.queue Approvals.evaluate_execution_gate
  queue-Holds h action_plan by s q =
      let kept = evaluate_execution_gate-Holds rs.stable subject_type (decimal h.id) s q in
      Holds-bind _ _ s kept λ gate answer. elim (Bool-cases gate.allowed) [
        | inl allowed ↦
            let (a, named, cleared, same) =
              evaluate_execution_gate-IsCleared subject_type (decimal h.id) s gate answer allowed in
            rw (allowed, named, same) (enqueue-Holds h action_plan by a s cleared q)
        | inr shut ↦ rw shut ((block_execution-Keeps h by gate.message).after _ kept)
      ]

  record_completion-Holds :
      (sha256 : Text → Text) (e : Execution) (h : Hypothesis) (payload : ExecutionComplete)
      (actor : Text) (s : Session)
      → Any (λ x. x ≡ e) s.work.executions
      → (e.status == completed) ≡ false
      → Holds Q s
      → Holds Q (Executions.record_completion sha256 e h payload actor s).0
  unfolding Executions.record_completion ◌>>=◌ now gets modify Evidence.store pure
  record_completion-Holds sha256 e h payload actor s listed unfinished q =
      (finish-Keeps rs _ _ _ _ _ _ _ _).after _ (record {
        work = rs.evidence _ _ (rs.completion e h payload _ _ _ s.work listed unfinished q.work);
        saved = q.saved;
      })

  pub complete-Holds :
      (sha256 : Text → Text) (e : Execution) (payload : ExecutionComplete) (actor : Text)
      (s : Session)
      → Any (λ x. x ≡ e) s.work.executions
      → Holds Q s
      → Holds Q (Executions.complete sha256 e payload actor s).0
  unfolding Executions.complete Services.get_hypothesis
  complete-Holds sha256 e payload actor s listed q = elim (Bool-cases (e.status == completed)) [
    | inl done ↦ rw done ((Keeps-raise _).after s q)
    | inr unfinished ↦ rw unfinished (
        lookup-Holds hypothesis_id e.hypothesis_id (λ t. t.hypotheses)
          (codes "hypothesis not found") _ s q
          λ h _. record_completion-Holds sha256 e h payload actor s listed unfinished q)
  ]

  validated-Keeps : (r : Result ProgramPolicy) → Keeps Q (Routes.validated r)
  unfolding Routes.validated
  validated-Keeps (ok p) = Keeps-pure p
  validated-Keeps (err e) = Keeps-raise _

  -- the answer of a handler is left out
  answered :
      {A : Type 0} (m : Exec A) (s : Session)
      → Holds Q (m s).0
      → Holds Q ((m >>= λ _. pure {A = Unit {0}} tt) s).0
  answered m s h = Holds-bind m _ s h (λ a _. (Keeps-pure tt).after _ h)

  pub route-Holds :
      (sha256 : Text → Text) (user : User) (r : Request) (s : Session)
      → Holds Q s
      → Holds Q (Routes.route bracketed_ok sha256 user r s).0
  unfolding Routes.route Services.get_program Services.get_target Services.get_hypothesis
      Executions.get_execution
  route-Holds sha256 user (Request.create_program payload) s h =
      let policy = (validated-Keeps (model_validate payload.scope_policy)).after s h in
      Holds-bind _ _ s policy λ p _. answered _ _ ((create_program-Keeps rs _ _).after _ policy)
  route-Holds sha256 user (Request.create_target id payload) s h =
      lookup-Holds program_id id (λ t. t.programs) (codes "program not found") _ s h
        λ p listed. answered _ s (create_target-Holds rs p payload user.username s listed h)
  route-Holds sha256 user (Request.create_hypothesis id payload) s h =
      lookup-Holds target_id id (λ t. t.targets) (codes "target not found") _ s h
        λ x listed. answered _ s (create_hypothesis-Holds rs x payload user.username s listed h)
  route-Holds sha256 user (Request.request_approval id rationale minutes) s h =
      lookup-Holds hypothesis_id id (λ t. t.hypotheses) (codes "hypothesis not found") _ s h
        λ x listed.
          answered _ s ((request_approval-Keeps rs x rationale user.username minutes).after s h)
  route-Holds sha256 user Request.list_pending_approvals s h =
      answered _ s
        (unfold Approvals.list_pending in list_pending-Holds rs.stable (some subject_type) s h)
  route-Holds sha256 user (Request.suggest_hypotheses id model_source count) s h =
      lookup-Holds target_id id (λ t. t.targets) (codes "target not found") _ s h
        λ x listed. (Keeps-bind _ _ (log_rule rs _ _ _ _ _ _ _) (λ _. Keeps-commit)).after s h
  route-Holds sha256 user (Request.approve id rationale) s h =
      answered _ s (decide_approval-Holds rs id true rationale user s h)
  route-Holds sha256 user (Request.reject id rationale) s h =
      answered _ s (decide_approval-Holds rs id false rationale user s h)
  route-Holds sha256 user (Request.queue_execution id action_plan) s h =
      lookup-Holds hypothesis_id id (λ t. t.hypotheses) (codes "hypothesis not found") _ s h
        λ x listed. answered _ s (queue-Holds x action_plan user.username s h)
  route-Holds sha256 user (Request.complete_execution id payload) s h =
      lookup-Holds execution_id id (λ t. t.executions) (codes "execution not found") _ s h
        λ e listed. answered _ s (complete-Holds sha256 e payload user.username s listed h)

  -- What every write keeps holds after any requests, of the tables that are saved.
  pub serve-Holds :
      (sha256 : Text → Text) (requests : List (User × Request)) (s : Session)
      → Holds Q s
      → Holds Q (Routes.serve bracketed_ok sha256 requests s)
  unfolding Routes.serve
  serve-Holds sha256 [] s h = h
  serve-Holds sha256 ((user, r) ∷ rest) s h = serve-Holds sha256 rest _ (
      (Keeps-handle (Routes.route bracketed_ok sha256 user r)
          (record { after = route-Holds sha256 user r })).after
        s h)
