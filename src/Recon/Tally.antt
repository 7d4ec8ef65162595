-- ===== src/Recon/Tally.antt =====
-- Executions and findings: one finding for each completed execution, and none for the others.
use seclab.Prelude.{
  ℕ, suc, ◌≡◌, refl, Bool, false, ◌&&◌, List, ◌∷◌, arith, count, Any, Any-map, nat_beq, Bool-cases,
  inl, inr, ◌==◌, if◌then◌else◌,
}
use seclab.Prelude.Text.{Text}
use seclab.Security.Models.{User}
use seclab.Security.Evidence.{add_evidence}
use seclab.Security.Audit.{add_entry}
use seclab.Security.Approval.{put_approval, add_approval}
use seclab.Security.Approval.Frame.{IsPreserved}
use seclab.Security.Approval.Invariant.{ApprovalsNumbered, Both}
use seclab.Db.{Store, Session}
use seclab.Db.Rows.{IsNumbered, next_id}
use seclab.Db.Updates.{update_row-IsNumbered, count-update_row, count-update_row-suc}
use seclab.Db.Keeps.{Holds}
use seclab.Recon.Models.{Hypothesis, Execution, completed, execution_status_eq, Finding}
use seclab.Recon.Services.{add_program, add_target, add_hypothesis, set_hypothesis_status}
use seclab.Recon.Executions.{
  ExecutionComplete, execution_id, completed_row, add_execution, complete_row, add_finding,
  new_finding,
}
use seclab.Recon.Routes.{Request, serve}
use seclab.Recon.Frame.{IsReconPreserved}
use seclab.Recon.Serving.{serve-Holds}
use seclab.Recon.Invariant.{recon_stable}

abbrev pub is_about : ℕ → Finding → Bool
is_about n f = nat_beq f.execution_id n

abbrev pub is_completed : ℕ → Execution → Bool
is_completed n e = nat_beq e.id n && e.status == completed

-- Executions are numbered, and each has as many findings as there are completed rows with its id.
abbrev pub FindingsMatch : Store → Type 0
FindingsMatch t =
    IsNumbered execution_id t.executions
    × ((n : ℕ) → count (is_about n) t.findings ≡ count (is_completed n) t.executions)

FindingsMatch-preserved : IsPreserved FindingsMatch
unfolding add_entry put_approval add_approval
FindingsMatch-preserved = record {
  entry = λ e t h. h;
  expiry = λ a at t free h. h;
  decision = λ a b r st rat at t n p free h. h;
  opening = λ a t o h. h;
}

module _ (e : Execution) (payload : ExecutionComplete) (at : ℕ) (t : Store) where
  abbrev written : Execution → Execution
  written x = completed_row x payload.output_summary at

  completed_more :
      (n : ℕ)
      → IsNumbered execution_id t.executions
      → Any (λ x. x ≡ e) t.executions
      → (e.status == completed) ≡ false
      → count (is_completed n) (complete_row e.id payload.output_summary at t).executions ≡ (
          if nat_beq e.id n
          then suc (count (is_completed n) t.executions)
          else count (is_completed n) t.executions)
  unfolding complete_row
  completed_more n num listed unfinished = elim (Bool-cases (nat_beq e.id n)) [
    | inl same ↦ rw same (
        count-update_row-suc execution_id e.id written (is_completed n) t.executions num
          (Any-map (λ x is. rw is (refl, rw same unfinished, rw same refl)) listed))
    | inr other ↦ rw other (
        count-update_row execution_id e.id written (is_completed n) t.executions
          (λ x same_id. ground (arith, same_id, other)))
  ]

one_more :
    (e : Execution) (y : Hypothesis) (payload : ExecutionComplete) (id at created : ℕ) (t : Store)
    (n : ℕ)
    → count (is_about n) t.findings ≡ count (is_completed n) t.executions
    → count (is_completed n) (complete_row e.id payload.output_summary at t).executions ≡ (
        if nat_beq e.id n
        then suc (count (is_completed n) t.executions)
        else count (is_completed n) t.executions)
    → count (is_about n) (new_finding y e payload id created ∷ t.findings)
      ≡ count (is_completed n) (complete_row e.id payload.output_summary at t).executions
unfolding count
one_more e y payload id at created t n even more = elim (Bool-cases (nat_beq e.id n)) [
  | inl same ↦ rw (more, same, even) (omega arith)
  | inr other ↦ rw (more, other, even) (omega arith)
]

module _ {bracketed_ok : Text → Bool} where
  FindingsMatch-written : IsReconPreserved bracketed_ok FindingsMatch
  unfolding add_program add_target add_hypothesis set_hypothesis_status add_execution add_finding
      add_evidence count next_id complete_row
  FindingsMatch-written = record {
    program = λ p t h. h;
    target = λ x t judged h. h;
    hypothesis = λ y x t listed same scoped h. h;
    status = λ id st t h. h;
    execution = λ e t authorized h.
        ((authorized.numbered, h.0), λ n. ground (arith, h.1 n, authorized.open_status));
    completion = λ e y payload id at created t listed unfinished h. (
      update_row-IsNumbered execution_id e.id (written e payload at t) (λ r. refl) t.executions h.0,
      λ n.
          one_more e y payload id at created t n (h.1 n)
            (completed_more e payload at t n h.0 listed unfinished),
    );
    evidence = λ a t h. h;
  }

-- Whatever requests are served, in the tables at work and in the saved ones executions are
-- numbered and each has exactly one finding if it is completed, and none otherwise; if that was so
-- at the start, with numbered approvals.
pub serve-FindingsMatch :
    (bracketed_ok : Text → Bool) (sha256 : Text → Text) (requests : List (User × Request))
    (s : Session)
    → Holds (Both ApprovalsNumbered FindingsMatch) s
    → Holds (Both ApprovalsNumbered FindingsMatch) (serve bracketed_ok sha256 requests s)
serve-FindingsMatch bracketed_ok sha256 requests s h =
    serve-Holds (recon_stable FindingsMatch-preserved FindingsMatch-written) sha256 requests s h
