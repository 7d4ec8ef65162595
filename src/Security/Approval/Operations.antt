-- ===== src/Security/Approval/Operations.antt =====
-- The operations of the approval workflow that open, list and consult approvals keep what is
-- stable, from any session.
use seclab.Prelude.{
  ◌≡◌, refl, Option, none, some, List, [], ◌∷◌, find, order_desc-All, Any, Any-map, select-Any,
  Option-cases, inl, inr,
}
use seclab.Prelude.Text.{Text}
use seclab.Security.Models.{Datetime, ApprovalRequest, pending}
use seclab.Db.{Store, Session, pure, ◌>>=◌, gets, modify, now}
use seclab.Db.Keeps.{Holds, Holds-bind, Keeps-pure, Keeps-bind}
use seclab.Security.Approval.{
  is_pending_for, is_subject, expire_if_needed, expire_pending_for_subject, open_request, request,
}
use seclab.Security.Approval.Frame.{
  IsStable, IsOpen, AllOpen, pending_AllOpen, pending_IsOpen, log-Keeps, expire_if_needed-Holds,
  expire_if_needed-AllOpen, expire_pending_for_subject-Holds,
}
use seclab.Security.Approval.Clearance.{newest-Any}
use seclab.Security.Approval.Gate.{active_rows, list_pending, gate_on, evaluate_execution_gate}

module _ {Q : Store → Type 0} (stable : IsStable Q) where
  open_request-Holds :
      (t i role by rationale : Text) (e : Option Datetime) (s : Session)
      → find (is_pending_for t i) s.work.approvals ≡ none
      → Holds Q s
      → Holds Q (open_request t i role by rationale e s).0
  unfolding open_request ◌>>=◌ now gets modify
  open_request-Holds t i role by rationale e s none_pending h =
      (Keeps-bind _ _ (log-Keeps stable _ _ _ _ _ _ _) (λ _. Keeps-pure _)).after _ (record {
        work =
            stable.opening _ _ (record { numbered = refl; is_pending = refl; alone = none_pending })
              h.work;
        saved = h.saved;
      })

  pub request-Holds :
      (t i role by rationale : Text) (e : Option Datetime) (s : Session)
      → Holds Q s
      → Holds Q (request t i role by rationale e s).0
  unfolding request ◌>>=◌ gets
  request-Holds t i role by rationale e s h =
      let before = expire_pending_for_subject-Holds stable t i s h in
      Holds-bind (expire_pending_for_subject t i) _ s before λ _ done.
        let s' = (expire_pending_for_subject t i s).0 in
        elim (Option-cases (find (is_pending_for t i) s'.work.approvals)) [
          | inl vacant ↦ rw vacant (open_request-Holds t i role by rationale e s' vacant before)
          | inr (a, taken) ↦ rw taken before
        ]

  active_rows-Holds :
      (rows : List ApprovalRequest) (s : Session)
      → AllOpen rows s.work
      → Holds Q s
      → Holds Q (active_rows rows s).0
  unfolding active_rows pure
  active_rows-Holds [] s free h = h
  active_rows-Holds (a ∷ rows) s (free, others) h =
      let kept = expire_if_needed-Holds stable a s free h in
      Holds-bind _ _ s kept λ p done.
        Holds-bind (active_rows rows) _ (expire_if_needed a s).0
          (active_rows-Holds rows (expire_if_needed a s).0
            (expire_if_needed-AllOpen a s rows others) kept)
          λ active _.
            active_rows-Holds rows (expire_if_needed a s).0
              (expire_if_needed-AllOpen a s rows others) kept

  pub list_pending-Holds :
      (t : Option Text) (s : Session) → Holds Q s → Holds Q (list_pending t s).0
  unfolding list_pending ◌>>=◌ gets
  list_pending-Holds t s h =
      active_rows-Holds _ s
        (order_desc-All (λ a. a.created_at) (λ a. a.status ≡ pending → IsOpen a s.work) _
          (pending_AllOpen stable _ s.work h.work))
        h

  gate_on-Holds :
      (latest : Option ApprovalRequest) (s : Session)
      → ((a : ApprovalRequest) → latest ≡ some a → Any (λ r. r ≡ a) s.work.approvals)
      → Holds Q s
      → Holds Q (gate_on latest s).0
  unfolding gate_on pure
  gate_on-Holds none s listed h = h
  gate_on-Holds (some a) s listed h =
      let kept =
        expire_if_needed-Holds stable a s
          (pending_IsOpen a s.work (stable.numbered s.work h.work) (listed a refl)) h in
      Holds-bind _ _ s kept (λ p _. kept)

  pub evaluate_execution_gate-Holds :
      (t i : Text) (s : Session) → Holds Q s → Holds Q (evaluate_execution_gate t i s).0
  unfolding evaluate_execution_gate ◌>>=◌ gets
  evaluate_execution_gate-Holds t i s h =
      gate_on-Holds _ s
        (λ a e.
          Any-map (λ r q. q.1) (select-Any (is_subject t i) s.work.approvals (newest-Any _ a e)))
        h
