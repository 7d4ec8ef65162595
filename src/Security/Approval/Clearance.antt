-- ===== src/Security/Approval/Clearance.antt =====
-- The gate before an execution, `evaluate_execution_gate`: it opens exactly for a subject whose
-- newest approval request is approved.
use native.Mathlib.Nat.{le_trans}
use seclab.Prelude.{
  select-All, select-Any, ◌≡◌, ◌≢◌, ◌≤◌, ◌<◌, ◌⊎◌, ◌∙◌, refl, ap, true, false, Option, none, some,
  List, [], ◌∷◌, arith, ltb, select, All, All-map, Any, Any-map, here, there, ◌==◌, inl, inr,
  Bool-cases, Option-cases,
}
use seclab.Prelude.Parts.{All-lookup, select_sound, select_complete}
use seclab.Prelude.Text.{Text}
use seclab.Security.Models.{Result, ok, approved, status_eq, same_status_iff, ApprovalRequest}
use seclab.Db.{Store, Session, pure, ◌>>=◌, gets}
use seclab.Db.Runs.{bind-ok}
use seclab.Security.Approval.{is_subject, expire, expire_if_needed}
use seclab.Security.Approval.Expiry.{expire_if_needed_settled, expire_if_needed_cases}
use seclab.Security.Approval.Gate.{
  ApprovalGateResult, newest, gate_for, gate_on, evaluate_execution_gate,
}

pub newest-Any :
    (rows : List ApprovalRequest) (a : ApprovalRequest)
    → newest rows ≡ some a
    → Any (λ r. r ≡ a) rows
unfolding newest
newest-Any [] a h = absurd (ground (arith, h))
newest-Any (b ∷ rows) a h = elim (Option-cases (newest rows)) [
  | inl e ↦ here (ground (arith, e, h))
  | inr (c, e) ↦ elim (Bool-cases (ltb b.created_at c.created_at)) [
    | inl older ↦ there (newest-Any rows a (ground (arith, e, h, older)))
    | inr younger ↦ here (ground (arith, e, h, younger))
  ]
]

newest-none-All :
    (P : ApprovalRequest → Type 0) (rows : List ApprovalRequest) → newest rows ≡ none → All P rows
unfolding newest
newest-none-All P [] h = tt
newest-none-All P (b ∷ rows) h = absurd (ground (arith, h))

newest-All :
    (rows : List ApprovalRequest) (a : ApprovalRequest)
    → newest rows ≡ some a
    → All (λ r. r.created_at ≤ a.created_at) rows
unfolding newest
newest-All [] a h = tt
newest-All (b ∷ rows) a h = elim (Option-cases (newest rows)) [
  | inl e ↦ (ground (arith, e, h), newest-none-All (λ r. r.created_at ≤ a.created_at) rows e)
  | inr (c, e) ↦ elim (Bool-cases (ltb b.created_at c.created_at)) [
    | inl older ↦
        let same : c ≡ a = ground (arith, e, h, older) in
        let le : c.created_at ≤ a.created_at = ground (arith, same) in
        (ground (arith, older), All-map (λ r q. le_trans q le) rows (newest-All rows c e))
    | inr younger ↦
        let same : b ≡ a = ground (arith, e, h, younger) in
        let le : c.created_at ≤ a.created_at = ground (arith, same, younger) in
        (ground (arith, same), All-map (λ r q. le_trans q le) rows (newest-All rows c e))
  ]
]

-- The approval `a` clears the subject: it is in the table, for this subject, approved, and no
-- request for the subject is younger.
pub record IsCleared (subject_type subject_id : Text) (t : Store) (a : ApprovalRequest)
    : Type 0 where
  pub listed : Any (λ r. r ≡ a) t.approvals
  pub subject : is_subject subject_type subject_id a ≡ true
  pub is_approved : a.status ≡ approved
  pub youngest :
      All
        (λ r. is_subject subject_type subject_id r ≡ true → r.created_at ≤ a.created_at)
        t.approvals

-- Of rows with a strictly youngest one, `newest` finds it.
newest-youngest :
    (rows : List ApprovalRequest) (a : ApprovalRequest)
    → Any (λ r. r ≡ a) rows
    → All (λ r. (r ≡ a) ⊎ (r.created_at < a.created_at)) rows
    → newest rows ≡ some a
newest-youngest rows a m others = elim (Option-cases (newest rows)) [
  | inl e ↦ absurd (All-lookup (λ r. ⊥) rows a (newest-none-All (λ r. ⊥) rows e) m)
  | inr (c, e) ↦
      let le = All-lookup (λ r. r.created_at ≤ c.created_at) rows a (newest-All rows c e) m in
      let choice =
        All-lookup (λ r. (r ≡ a) ⊎ (r.created_at < a.created_at)) rows c others
          (newest-Any rows c e) in
      elim choice [
        | inl same ↦ e ∙ ap (λ r. some r) same
        | inr older ↦ absurd (omega (arith, le, older))
      ]
]

Any-const : {P : Type 0} {rows : List ApprovalRequest} → Any (λ r. P) rows → P
Any-const (here p) = p
Any-const (there h) = Any-const h

module _ (subject_type subject_id : Text) (s : Session) where
  newest-IsCleared :
      (a : ApprovalRequest)
      → newest (select (is_subject subject_type subject_id) s.work.approvals) ≡ some a
      → a.status ≡ approved
      → IsCleared subject_type subject_id s.work a
  newest-IsCleared a h st =
      let p = is_subject subject_type subject_id in
      let found = select-Any p s.work.approvals (newest-Any (select p s.work.approvals) a h) in
      record {
        listed = Any-map (λ r q. q.1) found;
        subject = Any-const (Any-map (λ r q. rw (← q.1) q.0) found);
        is_approved = st;
        youngest =
            select-All p (λ r. r.created_at ≤ a.created_at) s.work.approvals
              (newest-All (select p s.work.approvals) a h);
      }

  gate_on_open :
      (a : ApprovalRequest)
      → a.status ≡ approved
      → gate_on (some a) s ≡ (s, ok (gate_for false a approved))
  unfolding gate_on ◌>>=◌ pure
  gate_on_open a h = rw (expire_if_needed_settled a s (λ e. ground (arith, h, e)), h) refl

  gate_on_closed :
      (a : ApprovalRequest)
      → a.status ≢ approved
      → (r : ApprovalGateResult) × ((gate_on (some a) s).1 ≡ ok r) × (r.allowed ≡ false)
  unfolding gate_on pure
  gate_on_closed a n = elim (expire_if_needed_cases a s) [
    | inl k ↦ (
      gate_for false a a.status,
      ap (λ (p : Session × Result ApprovalGateResult). p.1)
          (bind-ok (expire_if_needed a) _ s (false, a) k.result),
      unfold gate_for in ground arith,
    )
    | inr x ↦ (
      _,
      ap (λ (p : Session × Result ApprovalGateResult). p.1)
          (bind-ok (expire_if_needed a) _ s _ x.result),
      unfold gate_for expire in refl,
    )
  ]

  gate_on_latest :
      (latest : Option ApprovalRequest)
      → evaluate_execution_gate subject_type subject_id s
        ≡ gate_on (newest (select (is_subject subject_type subject_id) s.work.approvals)) s
  unfolding evaluate_execution_gate ◌>>=◌ gets
  gate_on_latest latest = refl

  pub gate_on_newest :
      (a : ApprovalRequest)
      → newest (select (is_subject subject_type subject_id) s.work.approvals) ≡ some a
      → a.status ≡ approved
      → evaluate_execution_gate subject_type subject_id s ≡ (s, ok (gate_for false a approved))
  gate_on_newest a h st = rw (gate_on_latest none, h) (gate_on_open a st)

  -- The gate's answer lets the execution pass, names the approval, has nothing to commit, and has
  -- changed nothing.
  pub record IsOpen (a : ApprovalRequest) (outcome : Session × Result ApprovalGateResult)
      : Type 0 where
    pub result : ApprovalGateResult
    pub returned : outcome ≡ (s, ok result)
    pub allowed : result.allowed ≡ true
    pub approval : result.approval ≡ some a
    pub nothing_due : result.commit_required ≡ false

  -- If an approval request of the subject is in the table and approved, and every other one of the
  -- subject is older, the gate allows the execution, names that request, and changes nothing.
  pub evaluate_execution_gate-IsOpen :
      (a : ApprovalRequest)
      → Any (λ r. r ≡ a) s.work.approvals
      → is_subject subject_type subject_id a ≡ true
      → a.status ≡ approved
      → All
          (λ r.
            is_subject subject_type subject_id r ≡ true → (r ≡ a) ⊎ (r.created_at < a.created_at))
          s.work.approvals
      → IsOpen a (evaluate_execution_gate subject_type subject_id s)
  evaluate_execution_gate-IsOpen a m own st others =
      let p = is_subject subject_type subject_id in
      let newest_one =
        newest-youngest (select p s.work.approvals) a (select_complete p s.work.approvals a m own) (
          All-map
            (λ r (mine, at).
              All-lookup (λ q. p q ≡ true → (q ≡ a) ⊎ (q.created_at < a.created_at))
                s.work.approvals r others at mine)
            (select p s.work.approvals) (select_sound p s.work.approvals)) in
      record {
        result = gate_for false a approved;
        returned = gate_on_newest a newest_one st;
        allowed = unfold gate_for in refl;
        approval = unfold gate_for in refl;
        nothing_due = unfold gate_for in refl;
      }

  gate_on_sound :
      (latest : Option ApprovalRequest) (r : ApprovalGateResult)
      → newest (select (is_subject subject_type subject_id) s.work.approvals) ≡ latest
      → (gate_on latest s).1 ≡ ok r
      → r.allowed ≡ true
      → (a : ApprovalRequest) × (r.approval ≡ some a)
        × IsCleared subject_type subject_id s.work a
        × ((gate_on latest s).0 ≡ s)
  gate_on_sound none r n h allowed = absurd (unfold gate_on pure in ground (arith, h, allowed))
  gate_on_sound (some a) r n h allowed = elim (Bool-cases (a.status == approved)) [
    | inl e ↦
        let st : a.status ≡ approved = (same_status_iff a.status approved).0 e in
        let opened = gate_on_open a st in
        (
          a,
          unfold gate_for in ground (arith, h, opened),
          newest-IsCleared a n st,
          ap (λ (p : Session × Result ApprovalGateResult). p.0) opened,
        )
    | inr e ↦
        let (r', shut, no_entry) = gate_on_closed a (λ q. ground (arith, e, q)) in
        absurd (ground (arith, h, shut, no_entry, allowed))
  ]

  -- Whenever the gate allows an execution, it names an approval request that is in the table, is
  -- for this subject, is approved and is no older than any other request for the subject; and the
  -- gate has changed nothing.
  pub evaluate_execution_gate-IsCleared :
      (r : ApprovalGateResult)
      → (evaluate_execution_gate subject_type subject_id s).1 ≡ ok r
      → r.allowed ≡ true
      → (a : ApprovalRequest) × (r.approval ≡ some a)
        × IsCleared subject_type subject_id s.work a
        × ((evaluate_execution_gate subject_type subject_id s).0 ≡ s)
  evaluate_execution_gate-IsCleared r h allowed =
      rw (gate_on_latest none) (gate_on_sound _ r refl (rw (gate_on_latest none) at h) allowed)
