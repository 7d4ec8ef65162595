-- ===== src/Tests/Approval.antt =====
-- Decisions on an approval request, and the gate behind them.
use seclab.Prelude.{
  ℕ, ◌≡◌, refl, ap, arith, true, false, none, some, List, [], ◌∷◌, select, here, there, inl, inr,
}
use seclab.Prelude.Text.{codes, text_beq}
use seclab.Security.Models.{
  Result, ok, err, http_error, analyst, security_lead, pending, approved, rejected, ApprovalRequest,
  aware, role_rank,
}
use seclab.Db.{Session, ◌>>=◌, now, modify, commit}
use seclab.Security.Audit.{log}
use seclab.Security.Approval.{
  decide, decided_row, expire_if_needed, is_subject, decide_pending, record_decision, refuse,
  record_blocked,
}
use seclab.Security.Approval.Outcome.{
  IsPermitted, IsDecided, decide-IsDecided, decide_of_IsPermitted,
}
use seclab.Security.Approval.Refusal.{IsOnRecord, decide-IsOnRecord}
use seclab.Security.Approval.Clearance.{
  IsCleared, evaluate_execution_gate-IsCleared, evaluate_execution_gate-IsOpen, IsOpen,
  gate_on_newest,
}
use seclab.Security.Approval.Gate.{ApprovalGateResult, newest, gate_for, evaluate_execution_gate}
use seclab.Tests.Data.{empty_store, empty_session}

abbrev waiting : ApprovalRequest
waiting = record {
  id = 1;
  subject_type = codes "recon.hypothesis";
  subject_id = codes "7";
  required_role = analyst;
  requested_by = codes "alice";
  request_rationale = codes "please";
  approver = none;
  approver_role = none;
  status = pending;
  decision_reason = none;
  created_at = 900;
  expires_at = some (aware 5000);
  decided_at = none;
}

abbrev granted : ApprovalRequest
granted = record waiting {
  approver = some (codes "bob");
  approver_role = some security_lead;
  status = approved;
  decision_reason = some (codes "fine");
  decided_at = some 1001;
}

abbrev with_rows : List ApprovalRequest → Session
with_rows rows = record empty_session {
  work = record empty_store { approvals = rows };
  saved = record empty_store { approvals = rows };
}

abbrev asked : Session
asked = with_rows (waiting ∷ [])

abbrev answered : Session
answered = with_rows (granted ∷ [])

abbrev decided : Session × Result ApprovalRequest
decided = decide waiting (codes "bob") security_lead approved (codes "fine") asked

returns_granted : decided.1 ≡ ok granted
unfolding decide ◌>>=◌ expire_if_needed now decide_pending text_beq codes role_rank record_decision
    modify log decided_row
returns_granted = refl

decide-IsDecided_example :
    IsDecided waiting (codes "bob") security_lead approved (codes "fine") asked decided.0 granted
decide-IsDecided_example =
    decide-IsDecided waiting (codes "bob") security_lead approved (codes "fine") asked granted
      returns_granted

lead_IsPermitted : IsPermitted waiting (codes "bob") security_lead
unfolding role_rank text_beq codes
lead_IsPermitted = record {
  other = refl;
  approver_rank = 2;
  required_rank = 1;
  approver_ranked = refl;
  required_ranked = refl;
  high_enough = refl;
}

decide_of_IsPermitted_example :
    (at : ℕ) × (decided.1
      ≡ ok (decided_row waiting (codes "bob") security_lead approved (codes "fine") at))
decide_of_IsPermitted_example =
    decide_of_IsPermitted waiting (codes "bob") security_lead approved (codes "fine") asked refl
      refl lead_IsPermitted

abbrev own_decision : Session × Result ApprovalRequest
own_decision = decide waiting (codes "alice") security_lead approved (codes "mine") asked

own_decision_refused :
    own_decision.1 ≡ err (http_error 403 (codes "Requester cannot decide their own approval."))
unfolding decide ◌>>=◌ expire_if_needed now decide_pending text_beq codes refuse record_blocked log
    commit
own_decision_refused = refl

decide-IsOnRecord_example :
    IsOnRecord waiting
      (codes "alice")
      security_lead
      approved
      (codes "mine")
      (codes "Requester cannot decide their own approval.")
      asked
      own_decision.0
decide-IsOnRecord_example =
    decide-IsOnRecord waiting (codes "alice") security_lead approved (codes "mine")
      (codes "Requester cannot decide their own approval.") asked own_decision_refused

abbrev gate : Session × Result ApprovalGateResult
gate = evaluate_execution_gate (codes "recon.hypothesis") (codes "7") answered

newest-granted :
    newest (select (is_subject (codes "recon.hypothesis") (codes "7")) answered.work.approvals)
    ≡ some granted
unfolding newest select is_subject text_beq codes
newest-granted = refl

-- the same subject, with an older request that was rejected
abbrev asked_twice : Session
asked_twice = with_rows (record granted { status = rejected; created_at = 0 } ∷ granted ∷ [])

own : is_subject (codes "recon.hypothesis") (codes "7") granted ≡ true
unfolding is_subject text_beq codes
own = refl

evaluate_execution_gate-IsOpen_example :
    IsOpen
      (codes "recon.hypothesis")
      (codes "7")
      asked_twice
      granted
      (evaluate_execution_gate (codes "recon.hypothesis") (codes "7") asked_twice)
evaluate_execution_gate-IsOpen_example =
    evaluate_execution_gate-IsOpen (codes "recon.hypothesis") (codes "7") asked_twice granted
      (there (here refl)) own refl (λ mine. inr (omega arith), (λ mine. inl refl, tt))

gate_answer : gate.1 ≡ ok (gate_for false granted approved)
gate_answer =
    ap (λ (p : Session × Result ApprovalGateResult). p.1)
      (gate_on_newest (codes "recon.hypothesis") (codes "7") answered granted newest-granted refl)

gate_allows : (gate_for false granted approved).allowed ≡ true
unfolding gate_for
gate_allows = refl

evaluate_execution_gate-IsCleared_example :
    (a : ApprovalRequest) × ((gate_for false granted approved).approval ≡ some a)
    × IsCleared (codes "recon.hypothesis") (codes "7") answered.work a
    × (gate.0 ≡ answered)
evaluate_execution_gate-IsCleared_example =
    evaluate_execution_gate-IsCleared (codes "recon.hypothesis") (codes "7") answered
      (gate_for false granted approved) gate_answer gate_allows
