-- ===== src/Security/Approval/Frame.antt =====
-- One rule for each action of the approval workflow: an invariant of the tables that survives an
-- audit entry, and each write of an approval that the workflow makes, survives the action.
use seclab.Prelude.{
  ℕ, ◌≡◌, ◌≢◌, Bool, false, Option, none, List, [], ◌∷◌, arith, find, select, All, All-map, Any,
  Any-map, select-Any, All-of_mem, Bool-cases, inl, inr, ◌==◌,
}
use seclab.Prelude.Text.{Text, text_eq}
use seclab.Security.Models.{
  Json, AuditLog, ApprovalStatus, pending, approved, status_eq, same_status_iff, ApprovalRequest,
}
use seclab.Security.Audit.{add_entry, log}
use seclab.Db.{Store, Session, pure, ◌>>=◌, gets, modify, now}
use seclab.Db.Rows.{IsNumbered, next_id, All-put_row, same_row}
use seclab.Db.Runs.{bind-ok}
use seclab.Db.Keeps.{
  Holds, Holds-bind, Keeps, keeps_rules, Keeps-modify, Keeps-pure, Keeps-raise, Keeps-commit,
  Keeps-bind,
}
use seclab.Security.Approval.{
  put_approval, add_approval, approval_id, expire, decided_row, is_pending_for, record_blocked,
  refuse, expire_if_needed, expire_all, expire_pending_for_subject, record_decision, decide_pending,
  decide,
}
use seclab.Security.Approval.Outcome.{IsPermitted, decide_pending_cases, decide_pending_permitted}
use seclab.Security.Approval.Expiry.{expire_if_needed_cases}

-- No row with the id of `a` is approved.
abbrev pub IsOpen : ApprovalRequest → Store → Type 0
IsOpen a t = All (λ r. r.id ≡ a.id → r.status ≢ approved) t.approvals

-- What a row that is opened satisfies, in the tables that it is added to.
pub record IsOpening (a : ApprovalRequest) (t : Store) : Type 0 where
  pub numbered : a.id ≡ next_id approval_id t.approvals
  pub is_pending : a.status ≡ pending
  pub alone : find (is_pending_for a.subject_type a.subject_id) t.approvals ≡ none

-- Every write of the workflow keeps `Q`; an approved row is never written.
pub record IsPreserved (Q : Store → Type 0) : Type 0 where
  pub entry : (e : AuditLog) (t : Store) → Q t → Q (add_entry e t)
  pub expiry :
      (a : ApprovalRequest) (at : ℕ) (t : Store)
      → IsOpen a t
      → Q t
      → Q (put_approval (expire a at) t)
  pub decision :
      (a : ApprovalRequest) (approver approver_role : Text) (status : ApprovalStatus)
      (rationale : Text) (at : ℕ) (t : Store)
      → status ≢ pending
      → IsPermitted a approver approver_role
      → IsOpen a t
      → Q t
      → Q (put_approval (decided_row a approver approver_role status rationale at) t)
  pub opening : (a : ApprovalRequest) (t : Store) → IsOpening a t → Q t → Q (add_approval a t)

-- What is preserved in a table whose rows are numbered.
pub record IsStable (Q : Store → Type 0) : Type 0 where
  pub numbered : (t : Store) → Q t → IsNumbered approval_id t.approvals
  pub preserved : IsPreserved Q
  pub open preserved use {entry, expiry, decision, opening}

-- In a numbered table a pending row is the only row with its id.
pub pending_IsOpen :
    (a : ApprovalRequest) (t : Store)
    → IsNumbered approval_id t.approvals
    → Any (λ r. r ≡ a) t.approvals
    → a.status ≡ pending
    → IsOpen a t
pending_IsOpen a t num listed p =
    All-map (λ r same e. ground (arith, same e, p)) t.approvals
      (same_row approval_id a t.approvals num listed)

pub IsOpen-put_approval :
    (a b : ApprovalRequest) (t : Store)
    → b.status ≢ approved
    → IsOpen a t
    → IsOpen a (put_approval b t)
unfolding put_approval
IsOpen-put_approval a b t n h =
    All-put_row approval_id (λ r. r.id ≡ a.id → r.status ≢ approved) b t.approvals (λ _. n) h

abbrev pub AllOpen : List ApprovalRequest → Store → Type 0
AllOpen rows t = All (λ a. a.status ≡ pending → IsOpen a t) rows

module _ (a : ApprovalRequest) (s : Session) where
  pub expire_if_needed-AllOpen :
      (rows : List ApprovalRequest)
      → AllOpen rows s.work
      → AllOpen rows (expire_if_needed a s).0.work
  unfolding add_entry
  expire_if_needed-AllOpen rows h = elim (expire_if_needed_cases a s) [
    | inl k ↦ rw k.same_work h
    | inr x ↦ rw x.state (
        All-map
          (λ r free p. IsOpen-put_approval r (expire a _) s.work (unfold expire in cc) (free p))
          rows h)
  ]

module _ {Q : Store → Type 0} (stable : IsStable Q) where
  pub log-Keeps :
      (event_type entity_type : Text) (entity_id : Option Text) (actor decision reason : Text)
      (metadata : List (Text × Json))
      → Keeps Q (log event_type entity_type entity_id actor decision reason metadata)
  unfolding log
  log-Keeps event_type entity_type entity_id actor decision reason metadata =
      search (keeps_rules, Keeps-modify, stable.entry)

  pub expire_if_needed-Holds :
      (a : ApprovalRequest) (s : Session)
      → (a.status ≡ pending → IsOpen a s.work)
      → Holds Q s
      → Holds Q (expire_if_needed a s).0
  expire_if_needed-Holds a s free h = elim (expire_if_needed_cases a s) [
    | inl k ↦ record { work = rw k.same_work h.work; saved = rw k.same_saved h.saved }
    | inr x ↦ rw x.state (record {
      work = stable.entry _ _ (
          stable.expiry a _ s.work
            (free ((same_status_iff a.status pending).0 (ground (arith, x.due)))) h.work);
      saved = h.saved;
    })
  ]

  expire_all-Holds :
      (rows : List ApprovalRequest) (s : Session)
      → AllOpen rows s.work
      → Holds Q s
      → Holds Q (expire_all rows s).0
  unfolding expire_all pure
  expire_all-Holds [] s free h = h
  expire_all-Holds (a ∷ rows) s (free, others) h =
      Holds-bind _ _ s (expire_if_needed-Holds a s free h) λ p done.
        expire_all-Holds rows (expire_if_needed a s).0 (expire_if_needed-AllOpen a s rows others)
          (expire_if_needed-Holds a s free h)

  -- the rows that a query for pending approvals returns
  pub pending_AllOpen :
      (p : ApprovalRequest → Bool) (t : Store) → Q t → AllOpen (select p t.approvals) t
  pending_AllOpen p t h =
      All-of_mem (λ a. a.status ≡ pending → IsOpen a t) (select p t.approvals)
        λ a m.
          pending_IsOpen a t (stable.numbered t h)
            (Any-map (λ r q. q.1) (select-Any p t.approvals m))

  pub expire_pending_for_subject-Holds :
      (t i : Text) (s : Session) → Holds Q s → Holds Q (expire_pending_for_subject t i s).0
  unfolding expire_pending_for_subject ◌>>=◌ gets
  expire_pending_for_subject-Holds t i s h =
      expire_all-Holds _ s (pending_AllOpen (is_pending_for t i) s.work h.work) h

  refuse-Keeps :
      (a : ApprovalRequest) (b reason : Text) (m : List (Text × Json))
      → Keeps Q (refuse a b reason m)
  unfolding refuse record_blocked
  refuse-Keeps a b reason m = search (keeps_rules, log-Keeps)

  record_decision-Holds :
      (a : ApprovalRequest) (b r : Text) (status : ApprovalStatus) (rationale : Text) (s : Session)
      → status ≢ pending
      → IsPermitted a b r
      → IsOpen a s.work
      → Holds Q s
      → Holds Q (record_decision a b r status rationale s).0
  unfolding record_decision ◌>>=◌ now modify
  record_decision-Holds a b r status rationale s n p free h =
      (Keeps-bind _ _ (log-Keeps _ _ _ _ _ _ _) (λ _. Keeps-pure _)).after _ (record {
        work = stable.decision a b r status rationale _ s.work n p free h.work;
        saved = h.saved;
      })

  decide_pending-Holds :
      (a : ApprovalRequest) (b r : Text) (status : ApprovalStatus) (rationale : Text) (s : Session)
      → status ≢ pending
      → IsOpen a s.work
      → Holds Q s
      → Holds Q (decide_pending a b r status rationale s).0
  decide_pending-Holds a b r status rationale s n free h =
      elim (decide_pending_cases a b r status rationale s) [
        | inl p ↦
            rw (decide_pending_permitted a b r status rationale s p)
              (record_decision-Holds a b r status rationale s n p free h)
        | inr (inl (reason, m, refused)) ↦ rw refused ((refuse-Keeps a b reason m).after s h)
        | inr (inr unknown) ↦ rw unknown h
      ]

  -- A decision on a row of the table keeps what is stable.
  pub decide-Holds :
      (a : ApprovalRequest) (b r : Text) (status : ApprovalStatus) (rationale : Text) (s : Session)
      → status ≢ pending
      → Any (λ x. x ≡ a) s.work.approvals
      → Holds Q s
      → Holds Q (decide a b r status rationale s).0
  unfolding decide
  decide-Holds a b r status rationale s n listed h =
      let free = pending_IsOpen a s.work (stable.numbered s.work h.work) listed in
      let kept = expire_if_needed-Holds a s free h in
      elim (expire_if_needed_cases a s) [
        | inr x ↦
            rw (bind-ok (expire_if_needed a) _ s _ x.result)
              ((Keeps-bind _ _ Keeps-commit (λ _. Keeps-raise _)).after _ kept)
        | inl k ↦
            rw (bind-ok (expire_if_needed a) _ s (false, a) k.result)
              (elim (Bool-cases (a.status == pending)) [
                | inl p ↦ rw p (
                    decide_pending-Holds a b r status rationale (expire_if_needed a s).0 n
                      (rw k.same_work (free ((same_status_iff a.status pending).0 p))) kept)
                | inr settled ↦ rw settled ((Keeps-raise _).after _ kept)
              ])
      ]
