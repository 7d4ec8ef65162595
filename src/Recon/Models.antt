-- ===== src/Recon/Models.antt =====
-- packages/modules/recon/src/seclab_recon/models.py and enums.py. `confidence` is a float, which
-- the workflow only copies, and is left out; so is `updated_at`, which the database layer writes.
use seclab.Prelude.{ℕ, ◌≡◌, ◌↔◌, Bool, true, false, Option, Eq, arith}
use seclab.Prelude.Text.{Text}
use seclab.Security.Scope.{ProgramPolicy}

pub data HypothesisStatus : Type 0 where
  draft pending_approval approved rejected executed : HypothesisStatus

abbrev pub same_hypothesis_status : HypothesisStatus → HypothesisStatus → Bool
same_hypothesis_status draft draft = true
same_hypothesis_status pending_approval pending_approval = true
same_hypothesis_status approved approved = true
same_hypothesis_status rejected rejected = true
same_hypothesis_status executed executed = true
same_hypothesis_status _ _ = false

pub same_hypothesis_status_iff :
    (a b : HypothesisStatus) → (same_hypothesis_status a b ≡ true) ↔ (a ≡ b)
same_hypothesis_status_iff a b = ground arith

instance abbrev pub hypothesis_status_eq : Eq HypothesisStatus
hypothesis_status_eq = record {
  test = same_hypothesis_status;
  test_iff = same_hypothesis_status_iff;
}

pub data ExecutionStatus : Type 0 where
  queued blocked running completed : ExecutionStatus

abbrev pub same_execution_status : ExecutionStatus → ExecutionStatus → Bool
same_execution_status queued queued = true
same_execution_status blocked blocked = true
same_execution_status running running = true
same_execution_status completed completed = true
same_execution_status _ _ = false

pub same_execution_status_iff :
    (a b : ExecutionStatus) → (same_execution_status a b ≡ true) ↔ (a ≡ b)
same_execution_status_iff a b = ground arith

instance abbrev pub execution_status_eq : Eq ExecutionStatus
execution_status_eq = record { test = same_execution_status; test_iff = same_execution_status_iff }

pub data FindingStatus : Type 0 where
  new reported closed : FindingStatus

pub record Program : Type 0 where
  pub id : ℕ
  pub name : Text
  pub description : Text
  pub owner : Text
  pub scope_policy : ProgramPolicy
  pub created_at : ℕ

pub record Target : Type 0 where
  pub id : ℕ
  pub program_id : ℕ
  pub identifier : Text
  pub target_type : Text
  pub created_by : Text
  pub in_scope : Bool
  pub scope_reason : Text
  pub created_at : ℕ

pub record Hypothesis : Type 0 where
  pub id : ℕ
  pub program_id : ℕ
  pub target_id : ℕ
  pub title : Text
  pub description : Text
  pub suggested_next_step : Text
  pub required_role : Text
  pub severity : Text
  pub created_by : Text
  pub status : HypothesisStatus
  pub created_at : ℕ

pub record Execution : Type 0 where
  pub id : ℕ
  pub hypothesis_id : ℕ
  pub requested_by : Text
  pub approved_by : Option Text
  pub status : ExecutionStatus
  pub action_plan : Text
  pub output_summary : Option Text
  pub created_at : ℕ
  pub started_at : Option ℕ
  pub completed_at : Option ℕ

pub record Finding : Type 0 where
  pub id : ℕ
  pub program_id : ℕ
  pub target_id : ℕ
  pub hypothesis_id : ℕ
  pub execution_id : ℕ
  pub title : Text
  pub description : Text
  pub severity : Text
  pub status : FindingStatus
  pub created_at : ℕ
