-- ===== src/Recon/Routes.antt =====
-- packages/modules/recon/src/seclab_recon/routes.py: the requests of the recon API that change the
-- database, each in a session of its own, by a user that the gateway has authenticated. A request
-- body that pydantic refuses is answered with 422 by the gateway.
use seclab.Prelude.{ℕ, Bool, true, false, Option, some, List, [], ◌∷◌, ◌++◌}
use seclab.Prelude.Text.{Text, codes, decimal}
use seclab.Security.Models.{Result, ok, err, http_error, number, User}
use seclab.Security.Audit.{log}
use seclab.Security.Scope.{ProgramPolicy, model_validate}
use seclab.Db.{Session, Exec, pure, raise, ◌>>=◌, ◌>>◌, commit, handle}
use seclab.Recon.Services
use seclab.Recon.Services.{ProgramCreate, TargetCreate, HypothesisCreate}
use seclab.Recon.Approvals
use seclab.Recon.Executions
use seclab.Recon.Executions.{ExecutionComplete}

pub data Request : Type 0 where
  create_program : ProgramCreate → Request
  create_target : ℕ → TargetCreate → Request
  create_hypothesis : ℕ → HypothesisCreate → Request
  request_approval : ℕ → Text → Option ℕ → Request
  list_pending_approvals : Request
  -- with the source and the number of the suggestions that the AI provider gave
  suggest_hypotheses : ℕ → Text → ℕ → Request
  approve : ℕ → Text → Request
  reject : ℕ → Text → Request
  queue_execution : ℕ → Text → Request
  complete_execution : ℕ → ExecutionComplete → Request

-- The policy of a new program is validated as part of the request body.
unfoldable pub validated : Result ProgramPolicy → Exec ProgramPolicy
validated (ok policy) = pure policy
validated (err e) = raise (http_error 422 (codes "request validation failed"))

module _ (bracketed_ok : Text → Bool) (sha256 : Text → Text) where
  -- the handler of each route; what a client is sent back is left out
  unfoldable pub route : User → Request → Exec (Unit {0})
  unfolding validated
  route user (create_program payload) = do
    policy ← validated (model_validate payload.scope_policy)
    _ ← Services.create_program (record payload { scope_policy = policy }) user.username
    pure tt
  route user (create_target program_id payload) = do
    program ← Services.get_program program_id
    _ ← Services.create_target bracketed_ok program payload user.username
    pure tt
  route user (create_hypothesis target_id payload) = do
    target ← Services.get_target target_id
    _ ← Services.create_hypothesis target payload user.username
    pure tt
  route user (request_approval hypothesis_id rationale minutes) = do
    hypothesis ← Services.get_hypothesis hypothesis_id
    _ ← Approvals.request hypothesis rationale user.username minutes
    pure tt
  route user list_pending_approvals = do _ ← Approvals.list_pending; pure tt
  route user (suggest_hypotheses target_id model_source count) = do
    target ← Services.get_target target_id
    log (codes "ai_hypotheses_suggested") (codes "recon.target") (some (decimal target.id))
        user.username (codes "suggested") (codes "model_source=" ++ model_source)
        ((codes "count", number count) ∷ [])
    commit
  route user (approve id rationale) = do _ ← Approvals.decide id true rationale user; pure tt
  route user (reject id rationale) = do _ ← Approvals.decide id false rationale user; pure tt
  route user (queue_execution hypothesis_id action_plan) = do
    hypothesis ← Services.get_hypothesis hypothesis_id
    _ ← Executions.queue hypothesis action_plan user.username
    pure tt
  route user (complete_execution execution_id payload) = do
    execution ← Executions.get_execution execution_id
    _ ← Executions.complete sha256 execution payload user.username
    pure tt

  -- The requests of any users, one after another; an error ends only its own request.
  unfoldable pub serve : List (User × Request) → Session → Session
  serve [] s = s
  serve ((user, r) ∷ rest) s = serve rest (handle (route user r) s).0
