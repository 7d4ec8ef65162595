-- ===== src/Recon/Lineage.antt =====
-- Hypotheses stand on targets that the scope guard admitted.
use seclab.Prelude.{◌≡◌, sym, ◌∙◌, Bool, true, List, ◌∷◌, Any, Any-map, there, All, All-map}
use seclab.Prelude.Text.{Text}
use seclab.Security.Models.{ok, User}
use seclab.Security.Evidence.{add_evidence}
use seclab.Security.Scope.{ProgramPolicy, model_validate}
use seclab.Security.Scope.Decision.{TargetInScope, validate_target_in_scope_iff}
use seclab.Security.Audit.{add_entry}
use seclab.Security.Approval.{put_approval, add_approval}
use seclab.Security.Approval.Frame.{IsPreserved}
use seclab.Security.Approval.Invariant.{ApprovalsNumbered, Both}
use seclab.Db.{Store, Session}
use seclab.Db.Updates.{All-update_row}
use seclab.Db.Keeps.{Holds}
use seclab.Recon.Models.{Program, Target, Hypothesis}
use seclab.Recon.Services.{
  hypothesis_id, add_program, add_target, add_hypothesis, set_hypothesis_status,
}
use seclab.Recon.Executions.{add_execution, complete_row, add_finding}
use seclab.Recon.Routes.{Request, serve}
use seclab.Recon.Frame.{IsJudged, IsReconPreserved}
use seclab.Recon.Serving.{serve-Holds}
use seclab.Recon.Invariant.{recon_stable}

module _ (bracketed_ok : Text → Bool) where
  -- The stored policy of the target's program covers the target.
  pub record IsAdmitted (programs : List Program) (x : Target) : Type 0 where
    pub program : Program
    pub listed : Any (λ p. p ≡ program) programs
    pub same_program : x.program_id ≡ program.id
    pub policy : ProgramPolicy
    pub valid : model_validate program.scope_policy ≡ ok policy
    pub covered : TargetInScope bracketed_ok policy x.identifier x.target_type

  abbrev pub TargetsAdmitted : List Program → List Target → Type 0
  TargetsAdmitted programs targets = All (λ x. x.in_scope ≡ true → IsAdmitted programs x) targets

  abbrev pub OnScope : List Target → Hypothesis → Type 0
  OnScope targets h = Any (λ x. (x.id ≡ h.target_id) × (x.in_scope ≡ true)) targets

  -- Every target marked as in scope is covered by its program's policy, and every hypothesis is
  -- about a target that is marked so.
  abbrev pub InScopeOnly : Store → Type 0
  InScopeOnly t = TargetsAdmitted t.programs t.targets × All (OnScope t.targets) t.hypotheses

  InScopeOnly-preserved : IsPreserved InScopeOnly
  unfolding add_entry put_approval add_approval
  InScopeOnly-preserved = record {
    entry = λ e t h. h;
    expiry = λ a at t free h. h;
    decision = λ a b r st rat at t n p free h. h;
    opening = λ a t o h. h;
  }

  IsAdmitted-later :
      (programs : List Program) (p : Program) (x : Target)
      → IsAdmitted programs x
      → IsAdmitted (p ∷ programs) x
  IsAdmitted-later programs p x a = record {
    program = a.program;
    listed = there a.listed;
    same_program = a.same_program;
    policy = a.policy;
    valid = a.valid;
    covered = a.covered;
  }

  judged-IsAdmitted :
      (x : Target) (t : Store)
      → IsJudged bracketed_ok x t
      → x.in_scope ≡ true
      → IsAdmitted t.programs x
  judged-IsAdmitted x t j scoped = record {
    program = j.program;
    listed = j.listed;
    same_program = j.same_program;
    policy = j.policy;
    valid = j.valid;
    covered =
        (validate_target_in_scope_iff bracketed_ok j.policy x.identifier x.target_type).0
          (rw j.verdict (sym j.in_scope ∙ scoped));
  }

  InScopeOnly-written : IsReconPreserved bracketed_ok InScopeOnly
  unfolding add_program add_target add_hypothesis set_hypothesis_status add_execution complete_row
      add_finding add_evidence
  InScopeOnly-written = record {
    program = λ p t h.
        (All-map (λ x k scoped. IsAdmitted-later t.programs p x (k scoped)) t.targets h.0, h.1);
    target = λ x t judged h.
        ((judged-IsAdmitted x t judged, h.0), All-map (λ y on. there on) t.hypotheses h.1);
    hypothesis = λ y x t listed same scoped h.
        (h.0, (Any-map (λ z is. rw is (sym same, scoped)) listed, h.1));
    status = λ id st t h.
        (h.0, All-update_row hypothesis_id id _ (OnScope t.targets) t.hypotheses (λ r on. on) h.1);
    execution = λ e t cleared h. h;
    completion = λ e y payload id at created t listed unfinished h. (
      h.0,
      All-update_row hypothesis_id y.id _ (OnScope t.targets) t.hypotheses (λ r on. on) h.1,
    );
    evidence = λ a t h. h;
  }

  -- Whatever requests are served, in the tables at work and in the saved ones every target marked
  -- as in scope is covered by the stored policy of a program with the target's program id, and
  -- every hypothesis is about a target marked as in scope; if that was so at the start, with
  -- numbered approvals.
  pub serve-InScopeOnly :
      (sha256 : Text → Text) (requests : List (User × Request)) (s : Session)
      → Holds (Both ApprovalsNumbered InScopeOnly) s
      → Holds (Both ApprovalsNumbered InScopeOnly) (serve bracketed_ok sha256 requests s)
  serve-InScopeOnly sha256 requests s h =
      serve-Holds (recon_stable InScopeOnly-preserved InScopeOnly-written) sha256 requests s h
