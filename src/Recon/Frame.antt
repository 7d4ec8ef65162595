-- ===== src/Recon/Frame.antt =====
-- One rule for each service method of recon, and for the serving of requests: an invariant of the
-- tables that each write keeps holds after any requests.
use seclab.Prelude.{
  ℕ, ◌≡◌, refl, Bool, true, false, Option, List, Any, Bool-cases, Option-cases, inl, inr, ◌==◌,
}
use seclab.Prelude.Text.{Text, decimal}
use seclab.Security.Models.{ok, Json, EvidenceArtifact, ApprovalRequest}
use seclab.Security.Audit.{log}
use seclab.Security.Evidence.{add_evidence}
use seclab.Security.Scope.{ProgramPolicy, TargetValidationResult, model_validate}
use seclab.Security.Scope.Guard.{validate_target_in_scope}
use seclab.Security.Approval.Frame.{IsStable, log-Keeps}
use seclab.Security.Approval.Clearance.{IsCleared}
use seclab.Db.{
  Store, Session, Exec, pure, raise, lift, ◌>>=◌, ◌>>◌, gets, modify, now, commit, or_404,
}
use seclab.Db.Keeps.{Holds, Holds-bind, Keeps, keeps_rules, Keeps-modify}
use seclab.Db.Rows.{get_row, get_row-Any, next_id}
use seclab.Recon.Models.{
  Program, Target, Hypothesis, HypothesisStatus, Execution, completed, execution_status_eq,
}
use seclab.Recon.Services
use seclab.Recon.Services.{
  program_id, target_id, hypothesis_id, TargetCreate, HypothesisCreate, ProgramCreate, add_program,
  add_target, add_hypothesis, set_hypothesis_status,
}
use seclab.Recon.Approvals.{subject_type}
use seclab.Recon.Executions.{
  ExecutionComplete, execution_id, add_execution, complete_row, add_finding, new_finding,
}

-- How a new target was judged: by the stored policy of its program.
pub record IsJudged (bracketed_ok : Text → Bool) (x : Target) (t : Store) : Type 0 where
  pub program : Program
  pub listed : Any (λ p. p ≡ program) t.programs
  pub same_program : x.program_id ≡ program.id
  pub policy : ProgramPolicy
  pub valid : model_validate program.scope_policy ≡ ok policy
  pub result : TargetValidationResult
  pub verdict : validate_target_in_scope bracketed_ok policy x.identifier x.target_type ≡ ok result
  pub in_scope : x.in_scope ≡ result.in_scope

-- A new execution, and the approval that clears it.
pub record IsAuthorized (e : Execution) (t : Store) : Type 0 where
  pub numbered : e.id ≡ next_id execution_id t.executions
  pub open_status : (e.status == completed) ≡ false
  pub approval : ApprovalRequest
  pub cleared : IsCleared subject_type (decimal e.hypothesis_id) t approval
  pub approver : e.approved_by ≡ approval.approver

-- The writes that the recon services make beside the approval workflow keep `Q`.
pub record IsReconPreserved (bracketed_ok : Text → Bool) (Q : Store → Type 0) : Type 0 where
  pub program : (p : Program) (t : Store) → Q t → Q (add_program p t)
  pub target : (x : Target) (t : Store) → IsJudged bracketed_ok x t → Q t → Q (add_target x t)
  pub hypothesis :
      (h : Hypothesis) (x : Target) (t : Store)
      → Any (λ y. y ≡ x) t.targets
      → h.target_id ≡ x.id
      → x.in_scope ≡ true
      → Q t
      → Q (add_hypothesis h t)
  pub status :
      (id : ℕ) (st : HypothesisStatus) (t : Store) → Q t → Q (set_hypothesis_status id st t)
  pub execution : (e : Execution) (t : Store) → IsAuthorized e t → Q t → Q (add_execution e t)
  pub completion :
      (e : Execution) (h : Hypothesis) (payload : ExecutionComplete) (id at created : ℕ) (t : Store)
      → Any (λ x. x ≡ e) t.executions
      → (e.status == completed) ≡ false
      → Q t
      → Q (
          add_finding (new_finding h e payload id created) (
            set_hypothesis_status h.id HypothesisStatus.executed
              (complete_row e.id payload.output_summary at t)))
  pub evidence : (a : EvidenceArtifact) (t : Store) → Q t → Q (add_evidence a t)

pub record IsReconStable (bracketed_ok : Text → Bool) (Q : Store → Type 0) : Type 0 where
  pub stable : IsStable Q
  pub writes : IsReconPreserved bracketed_ok Q
  pub open writes use {program, target, hypothesis, status, execution, completion, evidence}

module _ {Q : Store → Type 0} {A : Type 0} where
  -- a lookup that must find its row
  pub lookup-Holds :
      {B : Type 0} (id : B → ℕ) (n : ℕ) (rows : Store → List B) (label : Text) (f : B → Exec A)
      (s : Session)
      → Holds Q s
      → ((b : B) → Any (λ r. r ≡ b) (rows s.work) → Holds Q (f b s).0)
      → Holds Q (((do row ← gets (λ t. get_row id n (rows t)); or_404 row label) >>= f) s).0
  unfolding ◌>>=◌ gets or_404
  lookup-Holds id n rows label f s h k = elim (Option-cases (get_row id n (rows s.work))) [
    | inl e ↦ rw e h
    | inr (b, e) ↦ rw e (k b (get_row-Any id n (rows s.work) b e))
  ]

module _ {bracketed_ok : Text → Bool} {Q : Store → Type 0} (rs : IsReconStable bracketed_ok Q) where
  pub log_rule :
      (event_type entity_type : Text) (entity_id : Option Text) (actor decision reason : Text)
      (metadata : List (Text × Json))
      → Keeps Q (log event_type entity_type entity_id actor decision reason metadata)
  log_rule = log-Keeps rs.stable

  pub create_program-Keeps :
      (payload : ProgramCreate) (owner : Text) → Keeps Q (Services.create_program payload owner)
  unfolding Services.create_program
  create_program-Keeps payload owner =
      search (keeps_rules, Keeps-modify, rs.program, log_rule) depth 12

  -- the audit entry, the commit and the answer at the end of a method
  pub finish-Keeps :
      {A : Type 0} (event_type entity_type : Text) (entity_id : Option Text)
      (actor decision reason : Text) (metadata : List (Text × Json)) (a : A)
      → Keeps Q
          (do log event_type entity_type entity_id actor decision reason metadata; commit; pure a)
  finish-Keeps event_type entity_type entity_id actor decision reason metadata a =
      search (keeps_rules, log_rule)

  record_target-Holds :
      (program : Program) (payload : TargetCreate) (actor : Text) (result : TargetValidationResult)
      (policy : ProgramPolicy) (s : Session)
      → Any (λ p. p ≡ program) s.work.programs
      → model_validate program.scope_policy ≡ ok policy
      → validate_target_in_scope bracketed_ok policy payload.identifier payload.target_type
        ≡ ok result
      → Holds Q s
      → Holds Q (Services.record_target program payload actor result s).0
  unfolding Services.record_target ◌>>=◌ now gets modify
  record_target-Holds program payload actor result policy s listed valid verdict h =
      (finish-Keeps _ _ _ _ _ _ _ _).after _ (record {
        work =
            rs.target _ s.work
              (record {
                program = program;
                listed = listed;
                same_program = refl;
                policy = policy;
                valid = valid;
                result = result;
                verdict = verdict;
                in_scope = refl;
              })
              h.work;
        saved = h.saved;
      })

  pub create_target-Holds :
      (program : Program) (payload : TargetCreate) (actor : Text) (s : Session)
      → Any (λ p. p ≡ program) s.work.programs
      → Holds Q s
      → Holds Q (Services.create_target bracketed_ok program payload actor s).0
  unfolding Services.create_target lift
  create_target-Holds program payload actor s listed h = Holds-bind _ _ s h λ policy valid.
      Holds-bind _ _ s h λ result verdict.
        record_target-Holds program payload actor result policy s listed valid verdict h

  record_hypothesis-Holds :
      (target : Target) (payload : HypothesisCreate) (actor : Text) (s : Session)
      → Any (λ x. x ≡ target) s.work.targets
      → target.in_scope ≡ true
      → Holds Q s
      → Holds Q (Services.record_hypothesis target payload actor s).0
  unfolding Services.record_hypothesis ◌>>=◌ now gets modify commit pure
  record_hypothesis-Holds target payload actor s listed scoped h =
      let after = rs.hypothesis _ target s.work listed refl scoped h.work in
      record { work = after; saved = after }

  pub create_hypothesis-Holds :
      (target : Target) (payload : HypothesisCreate) (actor : Text) (s : Session)
      → Any (λ x. x ≡ target) s.work.targets
      → Holds Q s
      → Holds Q (Services.create_hypothesis target payload actor s).0
  unfolding Services.create_hypothesis Services.record_hypothesis raise
  create_hypothesis-Holds target payload actor s listed h = elim (Bool-cases target.in_scope) [
    | inl scoped ↦ rw scoped (record_hypothesis-Holds target payload actor s listed scoped h)
    | inr out ↦ rw out h
  ]
