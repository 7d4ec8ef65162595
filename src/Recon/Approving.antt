-- ===== src/Recon/Approving.antt =====
-- One rule for each method of `ApprovalService`.
use seclab.Prelude.{ℕ, ◌≡◌, Bool, true, false, Option, none, some, arith, Any, if◌then◌else◌}
use seclab.Prelude.Text.{Text, codes, decimal}
use seclab.Security.Models.{Error, Result, ok, err, Json, ApprovalRequest, User, pending, Datetime}
use seclab.Security.Models
use seclab.Security.Approval
use seclab.Security.Approval.{approval_id}
use seclab.Security.Approval.Frame.{decide-Holds}
use seclab.Security.Approval.Operations.{request-Holds}
use seclab.Db.{Store, Session, pure, lift, ◌>>=◌, ◌>>◌, gets, modify, commit}
use seclab.Db.Keeps.{Holds, Holds-bind, Keeps, keeps_rules, Keeps-modify, Keeps-pure}
use seclab.Db.Rows.{get_row}
use seclab.Recon.Models.{Hypothesis, HypothesisStatus, hypothesis_status_eq, execution_status_eq}
use seclab.Recon.Services.{hypothesis_id, set_hypothesis_status}
use seclab.Recon.Approvals
use seclab.Recon.Approvals.{subject_type}
use seclab.Recon.Frame.{IsReconStable, lookup-Holds}

module _ {bracketed_ok : Text → Bool} {Q : Store → Type 0} (rs : IsReconStable bracketed_ok Q) where
  request-after :
      (h : Hypothesis) (a : ApprovalRequest)
      → Keeps Q
          (do modify (set_hypothesis_status h.id HypothesisStatus.pending_approval); commit; pure a)
  request-after h a = search (keeps_rules, Keeps-modify, rs.status)

  request_subject-Keeps :
      (h : Hypothesis) (rationale by : Text) (e : Option Datetime)
      → Keeps Q (Approval.request subject_type (decimal h.id) h.required_role by rationale e)
  request_subject-Keeps h rationale by e = record {
    after = request-Holds rs.stable subject_type (decimal h.id) h.required_role by rationale e;
  }

  pub request_approval-Keeps :
      (h : Hypothesis) (rationale by : Text) (minutes : Option ℕ)
      → Keeps Q (Approvals.request h rationale by minutes)
  unfolding Approvals.request
  request_approval-Keeps h rationale by none =
      search (keeps_rules, request_subject-Keeps, request-after) depth 12
  request_approval-Keeps h rationale by (some n) =
      search (keeps_rules, request_subject-Keeps, request-after) depth 12

  decision-Holds :
      (a : ApprovalRequest) (approve : Bool) (rationale : Text) (user : User) (s : Session)
      → Any (λ x. x ≡ a) s.work.approvals
      → Holds Q s
      → Holds Q
          ((if approve
              then Approval.approve a user.username user.role rationale
              else Approval.reject a user.username user.role rationale)
            s).0
  unfolding Approval.approve Approval.reject
  decision-Holds a true rationale user s listed h =
      decide-Holds rs.stable a _ _ Models.approved rationale s (λ e. ground (arith, e)) listed h
  decision-Holds a false rationale user s listed h =
      decide-Holds rs.stable a _ _ Models.rejected rationale s (λ e. ground (arith, e)) listed h

  mirror-Keeps :
      (status : Models.ApprovalStatus) (h : Option Hypothesis) → Keeps Q (Approvals.mirror status h)
  unfolding Approvals.mirror
  mirror-Keeps status none = Keeps-pure tt
  mirror-Keeps status (some h) = Keeps-modify _ (rs.status h.id _)

  mirror-after :
      (decided : ApprovalRequest)
      → Keeps Q (do
        number ← lift (Approvals.int decided.subject_id)
        hypothesis ← gets (λ s. get_row hypothesis_id number s.hypotheses)
        Approvals.mirror decided.status hypothesis
        commit
        pure decided)
  mirror-after decided = search (keeps_rules, mirror-Keeps) depth 12

  pub decide_approval-Holds :
      (id : ℕ) (approve : Bool) (rationale : Text) (user : User) (s : Session)
      → Holds Q s
      → Holds Q (Approvals.decide id approve rationale user s).0
  unfolding Approvals.decide Approvals.get_approval
  decide_approval-Holds id approve rationale user s h =
      lookup-Holds approval_id id (λ t. t.approvals) (codes "approval not found") _ s h
        λ a listed.
          Holds-bind _ _ s (decision-Holds a approve rationale user s listed h) λ decided _.
            (mirror-after decided).after _ (decision-Holds a approve rationale user s listed h)
