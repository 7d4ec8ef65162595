-- ===== src/Security/Approval/Outcome.antt =====
-- What a decision on an approval does: when it is taken, and how it fails.
use seclab.Prelude.{
  ℕ, ◌≡◌, ◌≢◌, refl, ap, ◌∙◌, true, false, List, [], ◌∷◌, arith, ltb, ◌==◌, ◌⊎◌, inl, inr,
  Bool-cases, if◌then◌else◌,
}
use seclab.Prelude.Text.{Text, codes, text_eq}
use seclab.Security.Models.{
  Result, ok, err, http_error, Json, text, ApprovalStatus, pending, status_eq, same_status_iff,
  ApprovalRequest, role_rank, role_rank_cases, value_error,
}
use seclab.Security.Audit.{log}
use seclab.Db.{Store, Session, pure, raise, lift, ◌>>=◌, modify, now, commit}
use seclab.Db.Runs.{bind-ok}
use seclab.Db.Rows.{put_row}
use seclab.Security.Approval.{
  put_approval, approval_id, expire_if_needed, decided_row, record_decision, decide_pending, decide,
  refuse, record_blocked, status_name,
}
use seclab.Security.Approval.Expiry.{is_due, expire_if_needed_cases}

-- What a decision that is written satisfies.
pub record IsPermitted (a : ApprovalRequest) (approver approver_role : Text) : Type 0 where
  pub other : (a.requested_by == approver) ≡ false
  pub approver_rank : ℕ
  pub required_rank : ℕ
  pub approver_ranked : role_rank approver_role ≡ ok approver_rank
  pub required_ranked : role_rank a.required_role ≡ ok required_rank
  pub high_enough : ltb approver_rank required_rank ≡ false

module _ (a : ApprovalRequest) (approver approver_role : Text) (status : ApprovalStatus)
    (rationale : Text) where
  module _ (s : Session) where
    pub decide_expired :
        is_due a s ≡ true
        → (decide a approver approver_role status rationale s).1
          ≡ err (http_error 409 (codes "Approval expired; request a new human review."))
    unfolding decide raise
    decide_expired h = elim (expire_if_needed_cases a s) [
      | inl k ↦ absurd (ground (arith, h, k.early))
      | inr x ↦
          ap (λ (p : Session × Result ApprovalRequest). p.1)
            (bind-ok (expire_if_needed a) _ s _ x.result)
          ∙ (unfold commit ◌>>=◌ in refl)
    ]

    decide_kept :
        is_due a s ≡ false
        → (s' : Session) × (s'.work ≡ s.work)
          × (decide a approver approver_role status rationale s
              ≡ (if a.status == pending
                    then decide_pending a approver approver_role status rationale
                    else raise (http_error 409 (codes "Approval has already been decided.")))
                  s')
    unfolding decide
    decide_kept h = elim (expire_if_needed_cases a s) [
      | inl k ↦ ((expire_if_needed a s).0, k.same_work, bind-ok (expire_if_needed a) _ s _ k.result)
      | inr x ↦ absurd (ground (arith, h, x.due))
    ]

    pub decide_on_pending :
        is_due a s ≡ false
        → a.status ≡ pending
        → (s' : Session) × (s'.work ≡ s.work)
          × (decide a approver approver_role status rationale s
              ≡ decide_pending a approver approver_role status rationale s')
    decide_on_pending h p =
        let (s', same, kept) = decide_kept h in (s', same, ground (arith, kept, p))

    pub decide_settled :
        a.status ≢ pending
        → (decide a approver approver_role status rationale s).1
          ≡ err (http_error 409 (codes "Approval has already been decided."))
    unfolding raise
    decide_settled n = let (s', same, kept) = decide_kept (ground arith) in ground (arith, kept)

    pub refuse_err :
        (reason : Text) (m : List (Text × Json))
        → (refuse a approver reason m s).1 ≡ err (http_error 403 reason)
    unfolding refuse record_blocked ◌>>=◌ log commit raise now modify
    refuse_err reason m = refl

    pub decide_pending_permitted :
        IsPermitted a approver approver_role
        → decide_pending a approver approver_role status rationale s
          ≡ record_decision a approver approver_role status rationale s
    unfolding decide_pending ◌>>=◌
    decide_pending_permitted p =
        rw (p.other, p.approver_ranked, p.required_ranked, p.high_enough) refl

    -- `decide_pending` takes the decision, refuses it, or meets an unknown role.
    pub decide_pending_cases :
        IsPermitted a approver approver_role
        ⊎ (((reason : Text) × (m : List (Text × Json)) × (decide_pending a approver approver_role
                  status rationale s
                ≡ refuse a approver reason m s))
            ⊎ (decide_pending a approver approver_role status rationale s ≡ (s, err value_error)))
    unfolding decide_pending ◌>>=◌ lift
    decide_pending_cases = elim (Bool-cases (a.requested_by == approver)) [
      | inl self ↦ inr (
          inl (
            codes "Requester cannot decide their own approval.",
            (codes "attempted_status", text (status_name status)) ∷ [],
            rw self refl,
          ))
      | inr other ↦ elim (role_rank_cases approver_role) [
        | inr unknown ↦ inr (inr (rw (other, unknown) refl))
        | inl (n, ranked) ↦ elim (role_rank_cases a.required_role) [
          | inr unknown ↦ inr (inr (rw (other, ranked, unknown) refl))
          | inl (m, required) ↦ elim (Bool-cases (ltb n m)) [
            | inl low ↦ inr (
                inl (
                  codes "Approver's role does not meet the minimum required for this subject.",
                  (codes "approver_role", text approver_role)
                      ∷ (codes "attempted_status", text (status_name status))
                      ∷ [],
                  rw (other, ranked, required, low) refl,
                ))
            | inr enough ↦ inl (record {
              other = other;
              approver_rank = n;
              required_rank = m;
              approver_ranked = ranked;
              required_ranked = required;
              high_enough = enough;
            })
          ]
        ]
      ]
    ]

    pub record_decision_lem :
        ((record_decision a approver approver_role status rationale s).1
          ≡ ok (decided_row a approver approver_role status rationale (s.clock s.ticks)))
        × ((record_decision a approver approver_role status rationale s).0.work.approvals
            ≡ put_row approval_id
                (decided_row a approver approver_role status rationale (s.clock s.ticks))
                s.work.approvals)
    unfolding record_decision ◌>>=◌ now modify log put_approval pure
    record_decision_lem = (refl, refl)

  -- What a decision that is taken satisfies.
  pub record IsDecided (s s' : Session) (a' : ApprovalRequest) : Type 0 where
    pub was_pending : a.status ≡ pending
    pub not_due : is_due a s ≡ false
    pub permitted : IsPermitted a approver approver_role
    pub at : ℕ
    pub row : a' ≡ decided_row a approver approver_role status rationale at
    pub written : s'.work.approvals ≡ put_row approval_id a' s.work.approvals

  pending_decision :
      (s s' : Session) (a' : ApprovalRequest)
      → s'.work ≡ s.work
      → a.status ≡ pending
      → is_due a s ≡ false
      → (decide_pending a approver approver_role status rationale s').1 ≡ ok a'
      → IsDecided s (decide_pending a approver approver_role status rationale s').0 a'
  pending_decision s s' a' same p early h = elim (decide_pending_cases s') [
    | inl permitted ↦
        let taken = decide_pending_permitted s' permitted in
        let (value, rows) = record_decision_lem s' in
        let row : a' ≡ decided_row a approver approver_role status rationale (s'.clock s'.ticks) =
          ground (arith, h, taken, value) in
        record {
          was_pending = p;
          not_due = early;
          permitted = permitted;
          at = s'.clock s'.ticks;
          row = row;
          written =
              rw (taken, row)
                (rows
                  ∙ ap
                      (λ (t : Store).
                        put_row approval_id
                          (decided_row a approver approver_role status rationale
                            (s'.clock s'.ticks))
                          t.approvals)
                      same);
        }
    | inr (inl (reason, m, refused)) ↦ absurd (ground (arith, h, refused, refuse_err s' reason m))
    | inr (inr unknown) ↦ absurd (ground (arith, h, unknown))
  ]

  -- A decision that returns was taken on a pending approval before its deadline, by a person who
  -- is not the requester and whose known role has at least the required rank; the row it returns
  -- is the approval with that decision, and is what was written over the approval's row.
  pub decide-IsDecided :
      (s : Session) (a' : ApprovalRequest)
      → (decide a approver approver_role status rationale s).1 ≡ ok a'
      → IsDecided s (decide a approver approver_role status rationale s).0 a'
  decide-IsDecided s a' h = elim (Bool-cases (is_due a s)) [
    | inl due ↦ absurd (ground (arith, h, decide_expired s due))
    | inr early ↦ elim (Bool-cases (a.status == pending)) [
      | inl p ↦
          let open_row = (same_status_iff a.status pending).0 p in
          let (s', same, run) = decide_on_pending s early open_row in
          rw run (pending_decision s s' a' same open_row early (ground (arith, h, run)))
      | inr settled ↦ absurd (ground (arith, h, decide_settled s (λ e. ground (arith, settled, e))))
    ]
  ]

  -- A pending approval before its deadline, and a permitted approver, are all that a decision
  -- needs: it then returns the approval with that decision.
  pub decide_of_IsPermitted :
      (s : Session)
      → a.status ≡ pending
      → is_due a s ≡ false
      → IsPermitted a approver approver_role
      → (at : ℕ) × ((decide a approver approver_role status rationale s).1
          ≡ ok (decided_row a approver approver_role status rationale at))
  decide_of_IsPermitted s p early permitted =
      let (s', same, run) = decide_on_pending s early p in
      (
        s'.clock s'.ticks,
        rw (run, decide_pending_permitted s' permitted) (record_decision_lem s').0,
      )
