-- ===== src/Recon/Cleared.antt =====
-- Executions rest on approvals: no execution without an approved request for its hypothesis.
use seclab.Prelude.{
  ◌≡◌, ◌≢◌, refl, ap, Bool, true, Option, List, [], ◌∷◌, Any, Any-map, here, there, All, All-map,
  nat_beq, nat_beq_iff, Bool-cases, inl, inr,
}
use seclab.Prelude.Text.{Text, decimal, text_eq}
use seclab.Security.Models.{ApprovalRequest, approved, User}
use seclab.Security.Evidence.{add_evidence}
use seclab.Security.Audit.{add_entry}
use seclab.Security.Approval.{
  put_approval, add_approval, approval_id, is_subject, expire, decided_row,
}
use seclab.Security.Approval.Frame.{IsOpen, IsPreserved}
use seclab.Security.Approval.Invariant.{ApprovalsNumbered, Both}
use seclab.Db.{Store, Session}
use seclab.Db.Rows.{put_row}
use seclab.Db.Updates.{All-update_row}
use seclab.Db.Keeps.{Holds}
use seclab.Recon.Models.{Execution}
use seclab.Recon.Services.{add_program, add_target, add_hypothesis, set_hypothesis_status}
use seclab.Recon.Approvals.{subject_type}
use seclab.Recon.Executions.{execution_id, completed_row, add_execution, complete_row, add_finding}
use seclab.Recon.Routes.{Request, serve}
use seclab.Recon.Frame.{IsReconPreserved, IsAuthorized}
use seclab.Recon.Serving.{serve-Holds}
use seclab.Recon.Invariant.{recon_stable}

-- A row that is approved is still there when another row is written.
approved-put_row :
    (P : ApprovalRequest → Type 0) (a : ApprovalRequest) (rows : List ApprovalRequest)
    → ((r : ApprovalRequest) → P r → r.status ≡ approved)
    → All (λ r. r.id ≡ a.id → r.status ≢ approved) rows
    → Any P rows
    → Any P (put_row approval_id a rows)
unfolding put_row
approved-put_row P a [] st free h = elim h [ ]
approved-put_row P a (r ∷ rows) st (q, free) (here p) = elim (Bool-cases (nat_beq r.id a.id)) [
  | inl same ↦ absurd (q ((nat_beq_iff r.id a.id).0 same) (st r p))
  | inr other ↦ here (rw other p)
]
approved-put_row P a (r ∷ rows) st (q, free) (there h) = there (approved-put_row P a rows st free h)

-- A request for the execution's hypothesis that was approved by the person the execution names.
abbrev pub BacksUp : Execution → ApprovalRequest → Type 0
BacksUp e a =
    (a.status ≡ approved)
    × (is_subject subject_type (decimal e.hypothesis_id) a ≡ true)
    × (a.approver ≡ e.approved_by)

abbrev pub ClearedIn : List ApprovalRequest → List Execution → Type 0
ClearedIn approvals executions = All (λ e. Any (λ a. BacksUp e a) approvals) executions

-- Every execution is backed by an approval.
abbrev pub ExecutionsCleared : Store → Type 0
ExecutionsCleared t = ClearedIn t.approvals t.executions

put_row-ClearedIn :
    (a : ApprovalRequest) (t : Store)
    → IsOpen a t
    → ExecutionsCleared t
    → ClearedIn (put_row approval_id a t.approvals) t.executions
put_row-ClearedIn a t free h =
    All-map
      (λ e backed.
        approved-put_row (λ r. BacksUp e r) a t.approvals (λ r backs. backs.0) free backed)
      t.executions h

ExecutionsCleared-preserved : IsPreserved ExecutionsCleared
unfolding add_entry put_approval add_approval
ExecutionsCleared-preserved = record {
  entry = λ e t h. h;
  expiry = λ a at t free h. put_row-ClearedIn (expire a at) t (unfold expire in free) h;
  decision = λ a b r st rat at t n p free h.
      put_row-ClearedIn (decided_row a b r st rat at) t (unfold decided_row in free) h;
  opening = λ a t o h. All-map (λ e backed. there backed) t.executions h;
}

authorized-BacksUp :
    (e : Execution) (t : Store) → IsAuthorized e t → Any (λ a. BacksUp e a) t.approvals
authorized-BacksUp e t k =
    Any-map
      (λ r same. rw same (
        k.cleared.is_approved,
        k.cleared.subject,
        ap (λ (x : Option Text). x) (rw k.approver refl),
      ))
      k.cleared.listed

module _ {bracketed_ok : Text → Bool} where
  ExecutionsCleared-written : IsReconPreserved bracketed_ok ExecutionsCleared
  unfolding add_program add_target add_hypothesis set_hypothesis_status add_execution complete_row
      add_finding add_evidence
  ExecutionsCleared-written = record {
    program = λ p t h. h;
    target = λ x t judged h. h;
    hypothesis = λ y x t listed same scoped h. h;
    status = λ id st t h. h;
    execution = λ e t authorized h. (authorized-BacksUp e t authorized, h);
    completion = λ e y payload id at created t listed unfinished h.
        All-update_row execution_id e.id (λ x. completed_row x payload.output_summary at)
          (λ x. Any (λ a. BacksUp x a) t.approvals) t.executions (λ r backed. backed) h;
    evidence = λ a t h. h;
  }

-- Whatever requests are served, every execution in the tables at work and in the saved ones is
-- backed by an approved request for its hypothesis whose approver the execution names; if that was
-- so at the start, with numbered approvals.
pub serve-ExecutionsCleared :
    (bracketed_ok : Text → Bool) (sha256 : Text → Text) (requests : List (User × Request))
    (s : Session)
    → Holds (Both ApprovalsNumbered ExecutionsCleared) s
    → Holds (Both ApprovalsNumbered ExecutionsCleared) (serve bracketed_ok sha256 requests s)
serve-ExecutionsCleared bracketed_ok sha256 requests s h =
    serve-Holds (recon_stable ExecutionsCleared-preserved ExecutionsCleared-written) sha256 requests
      s h
