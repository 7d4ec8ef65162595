-- ===== src/Recon/Invariant.antt =====
-- The invariants of the approval workflow, under the requests of the recon API.
use seclab.Prelude.{Bool, List}
use seclab.Prelude.Text.{Text}
use seclab.Security.Models.{AuditLog, ApprovalRequest, User}
use seclab.Security.Evidence.{add_evidence}
use seclab.Security.Approval.{approval_id}
use seclab.Security.Approval.Frame.{IsPreserved}
use seclab.Security.Approval.Invariant.{
  ApprovalsNumbered, AtMostOnePending, AtMostOnePending-preserved, FourEyes, FourEyes-preserved,
  KeepsTrail, OnePendingIn, FourEyesIn, TrailEndsIn, KeepsTrail-preserved, Both, numbered_stable,
}
use seclab.Db.{Store, Session}
use seclab.Db.Rows.{IsNumbered}
use seclab.Db.Keeps.{Holds}
use seclab.Recon.Services.{add_program, add_target, add_hypothesis, set_hypothesis_status}
use seclab.Recon.Executions.{add_execution, complete_row, add_finding}
use seclab.Recon.Routes.{Request, serve}
use seclab.Recon.Frame.{IsReconPreserved, IsReconStable}
use seclab.Recon.Serving.{serve-Holds}

module _ {bracketed_ok : Text → Bool} where
  -- The services of recon write neither approvals nor audit entries themselves.
  workflow_tables-preserved :
      (R : List ApprovalRequest → List AuditLog → Type 0)
      → IsReconPreserved bracketed_ok (λ t. R t.approvals t.audit)
  unfolding add_program add_target add_hypothesis set_hypothesis_status add_execution complete_row
      add_finding add_evidence
  workflow_tables-preserved R = record {
    program = λ p t h. h;
    target = λ x t judged h. h;
    hypothesis = λ y x t listed same scoped h. h;
    status = λ id st t h. h;
    execution = λ e t cleared h. h;
    completion = λ e y payload id at created t listed unfinished h. h;
    evidence = λ a t h. h;
  }

  pub Both-written :
      {P Q : Store → Type 0}
      → IsReconPreserved bracketed_ok P
      → IsReconPreserved bracketed_ok Q
      → IsReconPreserved bracketed_ok (Both P Q)
  Both-written p q = record {
    program = λ x t h. (p.program x t h.0, q.program x t h.1);
    target = λ x t judged h. (p.target x t judged h.0, q.target x t judged h.1);
    hypothesis = λ y x t listed same scoped h.
        (p.hypothesis y x t listed same scoped h.0, q.hypothesis y x t listed same scoped h.1);
    status = λ id st t h. (p.status id st t h.0, q.status id st t h.1);
    execution = λ e t cleared h. (p.execution e t cleared h.0, q.execution e t cleared h.1);
    completion = λ e y payload id at created t listed unfinished h. (
      p.completion e y payload id at created t listed unfinished h.0,
      q.completion e y payload id at created t listed unfinished h.1,
    );
    evidence = λ a t h. (p.evidence a t h.0, q.evidence a t h.1);
  }

  -- What both parts of the program preserve is stable together with the numbering of approvals.
  pub recon_stable :
      {Q : Store → Type 0}
      → IsPreserved Q
      → IsReconPreserved bracketed_ok Q
      → IsReconStable bracketed_ok (Both ApprovalsNumbered Q)
  recon_stable preserved writes = record {
    stable = numbered_stable preserved;
    writes =
        Both-written (workflow_tables-preserved (λ rows trail. IsNumbered approval_id rows)) writes;
  }

module _ (bracketed_ok : Text → Bool) (sha256 : Text → Text) (requests : List (User × Request))
    (s : Session) where
  -- Whatever requests are served, by whatever users, every approved row of the tables at work and
  -- of the saved ones was approved by a person other than its requester, whose known role has at
  -- least the rank that the request asks for; if that was so at the start, in numbered tables.
  pub serve-FourEyes :
      Holds (Both ApprovalsNumbered FourEyes) s
      → Holds (Both ApprovalsNumbered FourEyes) (serve bracketed_ok sha256 requests s)
  serve-FourEyes h =
      serve-Holds
        (recon_stable FourEyes-preserved (workflow_tables-preserved λ rows trail. FourEyesIn rows))
        sha256 requests s h

  -- Whatever requests are served, no subject ever has two pending approvals, neither in the tables
  -- at work nor in the saved ones; if none had at the start, in numbered tables.
  pub serve-AtMostOnePending :
      Holds (Both ApprovalsNumbered AtMostOnePending) s
      → Holds (Both ApprovalsNumbered AtMostOnePending) (serve bracketed_ok sha256 requests s)
  serve-AtMostOnePending h =
      serve-Holds
        (recon_stable AtMostOnePending-preserved
          (workflow_tables-preserved λ rows trail. OnePendingIn rows))
        sha256 requests s h

  -- Whatever requests are served, the entries of an audit trail that the tables at work and the
  -- saved ones end in are all still there, unchanged and in their order, behind the newer ones;
  -- if approvals are numbered at the start.
  pub serve-KeepsTrail :
      (old : List AuditLog)
      → Holds (Both ApprovalsNumbered (KeepsTrail old)) s
      → Holds (Both ApprovalsNumbered (KeepsTrail old)) (serve bracketed_ok sha256 requests s)
  serve-KeepsTrail old h =
      serve-Holds
        (recon_stable (KeepsTrail-preserved old)
          (workflow_tables-preserved λ rows trail. TrailEndsIn old trail))
        sha256 requests s h
