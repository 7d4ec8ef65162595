-- ===== src/Security/Scope/Action.antt =====
-- The verdict on a proposed action: what is allowed, what is blocked outright and what a human has
-- to approve first.
use seclab.Prelude.{◌<◌, ◌≤◌, ◌≡◌, ◌↔◌, ◌⊎◌, Bool, true, false, not, arith}
use seclab.Prelude.Text.{Text}
use seclab.Security.Models.{Result, ok, err, map_ok}
use seclab.Security.Scope.{
  ProgramPolicy, ProposedAction, TargetValidationResult, ActionValidationResult, matches_technique,
}
use seclab.Security.Scope.Guard.{
  validate_action, judge, block_prohibited_action, requires_manual_approval,
}
use seclab.Security.Scope.Decision.{admits, TargetInScope, validate_target_in_scope_iff}

module _ (policy : ProgramPolicy) (action : ProposedAction) where
  -- Neither a forbidden technique nor over a hard limit.
  pub record IsWithinLimits : Type 0 where
    pub technique : matches_technique action policy.forbidden_techniques ≡ false
    pub rate : action.request_rate_per_minute ≤ policy.limits.max_requests_per_minute
    pub targets : action.target_count ≤ policy.limits.max_targets_per_execution

  -- A sensitive technique, a high request rate, a change of state, or an authenticated flow.
  abbrev pub IsSensitive : Type 0
  IsSensitive =
      (matches_technique action policy.limits.manual_approval_techniques ≡ true)
      ⊎ ((policy.limits.manual_approval_request_rate < action.request_rate_per_minute)
          ⊎ ((action.state_changing ≡ true) ⊎ (action.requires_authentication ≡ true)))

  blocked-IsWithinLimits :
      ((block_prohibited_action policy action).blocked ≡ false) ↔ IsWithinLimits
  unfolding block_prohibited_action
  blocked-IsWithinLimits = (λ h. ground arith, λ w. ground arith)

  manual-IsSensitive :
      ((requires_manual_approval policy action).requires_manual_approval ≡ true) ↔ IsSensitive
  unfolding requires_manual_approval
  manual-IsSensitive = (λ h. ground arith, λ w. ground arith)

  module _ (t : TargetValidationResult) where
    judge_allowed_iff :
        ((judge policy action t).allowed ≡ true) ↔ ((t.in_scope ≡ true) × IsWithinLimits)
    unfolding judge
    judge_allowed_iff =
        let (to, from) = blocked-IsWithinLimits in
        (λ h. (ground arith, to (ground arith)), λ w. ground (arith, from w.1))

    judge_manual_iff :
        ((judge policy action t).requires_manual_approval ≡ true)
        ↔ (((judge policy action t).allowed ≡ true) × IsSensitive)
    unfolding judge
    judge_manual_iff =
        let (to, from) = manual-IsSensitive in
        (λ h. (ground arith, to (ground arith)), λ w. ground (arith, from w.1))

    judge_blocked : (judge policy action t).blocked ≡ not (judge policy action t).allowed
    unfolding judge
    judge_blocked = ground arith

  -- What `validate_action` promises of an answer.
  pub record IsVerdict (bracketed_ok : Text → Bool) (r : ActionValidationResult) : Type 0 where
    pub allowed : (r.allowed ≡ true) ↔ (
        TargetInScope bracketed_ok policy action.target_identifier action.target_type
        × IsWithinLimits)
    pub manual : (r.requires_manual_approval ≡ true) ↔ ((r.allowed ≡ true) × IsSensitive)
    pub blocked : r.blocked ≡ not r.allowed

  IsVerdict-of :
      (bracketed_ok : Text → Bool) (v : Result TargetValidationResult)
      → ((admits v ≡ true)
          ↔ TargetInScope bracketed_ok policy action.target_identifier action.target_type)
      → (r : ActionValidationResult) → map_ok (judge policy action) v ≡ ok r
      → IsVerdict bracketed_ok r
  IsVerdict-of bracketed_ok (ok t) (to, from) r e =
      let same : judge policy action t ≡ r = ground (arith, e) in
      let (allows, needs) = judge_allowed_iff t in
      rw (← same) (record {
        allowed =
            (λ h. let (scope, limits) = allows h in (to scope, limits), λ w. needs (from w.0, w.1));
        manual = judge_manual_iff t;
        blocked = judge_blocked t;
      })
  IsVerdict-of bracketed_ok (err x) _ r e = absurd (ground (arith, e))

  -- Whatever the action, an answer allows it exactly when its target is in scope, no forbidden
  -- technique is named and neither hard limit is passed; asks for a human exactly when the action
  -- is allowed and sensitive; and blocks it exactly when it does not allow it.
  pub validate_action-IsVerdict :
      (bracketed_ok : Text → Bool) (r : ActionValidationResult)
      → validate_action bracketed_ok policy action ≡ ok r
      → IsVerdict bracketed_ok r
  unfolding validate_action
  validate_action-IsVerdict bracketed_ok r e =
      IsVerdict-of bracketed_ok _
        (validate_target_in_scope_iff bracketed_ok policy action.target_identifier
          action.target_type)
        r e
