-- ===== src/Recon/Services.antt =====
-- packages/modules/recon/src/seclab_recon/services.py: `ProgramService`, `TargetService` and
-- `HypothesisService`. The bodies of the requests (schemas.py) are records; the bounds that
-- pydantic puts on the lengths of their texts are not modelled.
use seclab.Prelude.{
  ℕ, Bool, some, List, [], ◌∷◌, select, order_desc, any, nat_beq, ◌==◌, if◌then◌else◌,
}
use seclab.Prelude.Text.{Text, codes, decimal, text_eq}
use seclab.Security.Models.{http_error, integrity_error, text, number, analyst, security_lead}
use seclab.Security.Audit.{log}
use seclab.Security.Scope.{ProgramPolicy, TargetValidationResult, model_validate}
use seclab.Security.Scope.Guard.{validate_target_in_scope}
use seclab.Db.{Store, Exec, pure, raise, lift, ◌>>=◌, ◌>>◌, gets, modify, now, commit, or_404}
use seclab.Db.Rows.{get_row, update_row, next_id}
use seclab.Recon.Models.{Program, Target, Hypothesis, draft, HypothesisStatus}

-- `Role` of security/models.py, as a request names it
pub data Role : Type 0 where
  role_analyst role_security_lead : Role

abbrev pub role_value : Role → Text
role_value role_analyst = analyst
role_value role_security_lead = security_lead

pub record ProgramCreate : Type 0 where
  pub name : Text
  pub description : Text
  pub scope_policy : ProgramPolicy

pub record TargetCreate : Type 0 where
  pub identifier : Text
  pub target_type : Text

pub record HypothesisCreate : Type 0 where
  pub title : Text
  pub description : Text
  pub suggested_next_step : Text
  pub required_role : Role
  pub severity : Text

abbrev pub program_id : Program → ℕ
program_id p = p.id

abbrev pub target_id : Target → ℕ
target_id t = t.id

abbrev pub hypothesis_id : Hypothesis → ℕ
hypothesis_id h = h.id

unfoldable pub add_program : Program → Store → Store
add_program p s = record s { programs = p ∷ s.programs }

unfoldable pub add_target : Target → Store → Store
add_target t s = record s { targets = t ∷ s.targets }

unfoldable pub add_hypothesis : Hypothesis → Store → Store
add_hypothesis h s = record s { hypotheses = h ∷ s.hypotheses }

-- `hypothesis.status = status`: the session writes the changed column of the row
unfoldable pub set_hypothesis_status : ℕ → HypothesisStatus → Store → Store
set_hypothesis_status id status s = record s {
  hypotheses = update_row hypothesis_id id (λ h. record h { status = status }) s.hypotheses;
}

-- the lookups of `_get_or_404`
unfoldable pub get_program : ℕ → Exec Program
get_program id = do
  row ← gets (λ s. get_row program_id id s.programs)
  or_404 row (codes "program not found")

unfoldable pub get_target : ℕ → Exec Target
get_target id = do
  row ← gets (λ s. get_row target_id id s.targets)
  or_404 row (codes "target not found")

unfoldable pub get_hypothesis : ℕ → Exec Hypothesis
get_hypothesis id = do
  row ← gets (λ s. get_row hypothesis_id id s.hypotheses)
  or_404 row (codes "hypothesis not found")

-- `ProgramService.create`; a program's name is unique in its table
unfoldable pub create_program : ProgramCreate → Text → Exec Program
create_program payload owner = do
  created ← now
  id ← gets (λ s. next_id program_id s.programs)
  taken ← gets (λ s. any (λ p. p.name == payload.name) s.programs)
  if taken then raise integrity_error else (do
    let program : Program = record {
      id = id;
      name = payload.name;
      description = payload.description;
      owner = owner;
      scope_policy = payload.scope_policy;
      created_at = created;
    }
    modify (add_program program)
    log (codes "program_created") (codes "recon.program") (some (decimal id)) owner
        (codes "created") (codes "New program registered.") ((codes "name", text payload.name) ∷ [])
    commit
    pure program)

unfoldable pub list_hypotheses : ℕ → Exec (List Hypothesis)
list_hypotheses program =
    gets
      λ s. order_desc (λ h. h.created_at) (select (λ h. nat_beq h.program_id program) s.hypotheses)

unfoldable pub list_programs : Exec (List Program)
list_programs = gets λ s. order_desc (λ p. p.created_at) s.programs

unfoldable pub list_targets : ℕ → Exec (List Target)
list_targets program = gets λ s. select (λ t. nat_beq t.program_id program) s.targets

-- the row and the audit entry of `TargetService.create`, once the scope is judged
unfoldable pub record_target : Program → TargetCreate → Text → TargetValidationResult → Exec Target
record_target program payload actor result = do
  created ← now
  id ← gets (λ s. next_id target_id s.targets)
  let target : Target = record {
    id = id;
    program_id = program.id;
    identifier = payload.identifier;
    target_type = payload.target_type;
    created_by = actor;
    in_scope = result.in_scope;
    scope_reason = result.message;
    created_at = created;
  }
  modify (add_target target)
  log (codes "target_scope_checked") (codes "recon.target") (some (decimal id)) actor
      (if result.in_scope then codes "in_scope" else codes "out_of_scope") result.message
      ((codes "code", text result.code) ∷ (codes "program_id", number program.id) ∷ [])
  commit
  pure target

-- `TargetService.create`
unfoldable pub create_target : (Text → Bool) → Program → TargetCreate → Text → Exec Target
create_target bracketed_ok program payload actor = do
  policy ← lift (model_validate program.scope_policy)
  result ←
      lift (validate_target_in_scope bracketed_ok policy payload.identifier payload.target_type)
  record_target program payload actor result

-- the row of `HypothesisService.create`
unfoldable pub record_hypothesis : Target → HypothesisCreate → Text → Exec Hypothesis
record_hypothesis target payload actor = do
  created ← now
  id ← gets (λ s. next_id hypothesis_id s.hypotheses)
  let hypothesis : Hypothesis = record {
    id = id;
    program_id = target.program_id;
    target_id = target.id;
    title = payload.title;
    description = payload.description;
    suggested_next_step = payload.suggested_next_step;
    required_role = role_value payload.required_role;
    severity = payload.severity;
    created_by = actor;
    status = draft;
    created_at = created;
  }
  modify (add_hypothesis hypothesis)
  commit
  pure hypothesis

-- `HypothesisService.create`
unfoldable pub create_hypothesis : Target → HypothesisCreate → Text → Exec Hypothesis
create_hypothesis target payload actor =
    if target.in_scope
    then record_hypothesis target payload actor
    else raise (http_error 403 (codes "Cannot create a hypothesis against an out-of-scope target."))
