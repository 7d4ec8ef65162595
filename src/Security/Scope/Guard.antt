-- ===== src/Security/Scope/Guard.antt =====
-- `ScopeGuardService` of scope_guard.py. `urlparse` can raise, so the target check is fallible.
-- The first matching pattern is never an empty text, so the source's truth test on it is a test
-- for `None`.
use seclab.Prelude.{Bool, true, false, Option, none, some, List, [], ◌∷◌, ◌++◌, ltb, if◌then◌else◌}
use seclab.Prelude.Text.{Text, codes, lower, strip, contains, is_empty, decimal}
use seclab.Security.Models.{Result, ok, err, map_ok}
use seclab.Security.Url.{ParseResult, urlparse, hostname}
use seclab.Security.Scope.{
  ProgramPolicy, ProposedAction, TargetValidationResult, ManualApprovalResult, ActionBlockResult,
  ActionValidationResult, match_first, matches_technique, is_host_type, or_none, or_text,
}

-- `parsed.hostname or parsed.netloc or parsed.path`
host_of : ParseResult → Text
unfolding or_text
host_of parsed = or_text (hostname parsed) (or_text (some parsed.netloc) parsed.path)

host_or_error : Result ParseResult → Result (Option Text)
unfolding host_of or_none
host_or_error (ok parsed) = ok (or_none (lower (strip (host_of parsed))))
host_or_error (err e) = err e

with_scheme : Text → Text
with_scheme candidate =
    if contains (codes "://") candidate then candidate else codes "https://" ++ candidate

-- the answer for a target with a host
unfoldable pub check_host : ProgramPolicy → Text → TargetValidationResult
check_host policy host = elim policy.allowed_domains [
  | [] ↦ record {
    in_scope = false;
    code = codes "scope_guard.missing_allowlist";
    message = codes "Program has no explicit allowlist. No target can be treated as in-scope.";
    normalized_target = some host;
    matched_rule = none;
  }
  | first ∷ others ↦ elim (match_first host policy.denied_domains) [
    | some rule ↦ record {
      in_scope = false;
      code = codes "scope_guard.denied_domain";
      message = codes "Target blocked by the program's denylist: '" ++ rule ++ codes "'.";
      normalized_target = some host;
      matched_rule = some rule;
    }
    | none ↦ elim (match_first host policy.allowed_domains) [
      | none ↦ record {
        in_scope = false;
        code = codes "scope_guard.out_of_scope";
        message = codes "Target outside the program's allowed scope. No allowlist rule matched.";
        normalized_target = some host;
        matched_rule = none;
      }
      | some rule ↦ record {
        in_scope = true;
        code = codes "scope_guard.in_scope";
        message = codes "Target validated in-scope by rule '" ++ rule ++ codes "'.";
        normalized_target = some host;
        matched_rule = some rule;
      }
    ]
  ]
]

unfoldable pub check_target : ProgramPolicy → Option Text → TargetValidationResult
unfolding check_host
check_target policy none = record {
  in_scope = false;
  code = codes "scope_guard.invalid_target";
  message = codes "Could not extract a valid host from the given target.";
  normalized_target = none;
  matched_rule = none;
}
check_target policy (some host) = check_host policy host

-- one reason, if its test holds
reason_if : Bool → Text → List Text → List Text
reason_if b reason rest = if b then reason ∷ rest else rest

unfoldable pub approval_reasons : ProgramPolicy → ProposedAction → List Text
unfolding reason_if
approval_reasons policy action =
    reason_if (matches_technique action policy.limits.manual_approval_techniques)
      (codes "Technique '"
        ++ action.technique
        ++ codes "' classified as sensitive by program policy.")
      (reason_if (ltb policy.limits.manual_approval_request_rate action.request_rate_per_minute)
        (codes "Request rate above the threshold that requires manual review.")
        (reason_if action.state_changing (codes "Action may change target state.") (
          reason_if action.requires_authentication
            (codes "Action interacts with an authenticated flow.") [])))

unfoldable pub requires_manual_approval : ProgramPolicy → ProposedAction → ManualApprovalResult
unfolding approval_reasons
requires_manual_approval policy action = elim (approval_reasons policy action) [
  | [] ↦ record {
    requires_manual_approval = false;
    code = codes "scope_guard.manual_approval_not_required";
    message = codes "The action does not trigger additional manual-approval rules.";
    reasons = [];
  }
  | reason ∷ reasons ↦ record {
    requires_manual_approval = true;
    code = codes "scope_guard.manual_approval_required";
    message = codes "The proposed action requires manual approval before execution.";
    reasons = reason ∷ reasons;
  }
]

unfoldable pub block_prohibited_action : ProgramPolicy → ProposedAction → ActionBlockResult
block_prohibited_action policy action =
    if matches_technique action policy.forbidden_techniques
    then record {
      blocked = true;
      code = codes "scope_guard.forbidden_technique";
      message = codes "Technique '" ++ action.technique ++ codes "' is forbidden for this program.";
      reasons = codes "Technique listed in forbidden_techniques." ∷ [];
    }
    else if ltb policy.limits.max_requests_per_minute action.request_rate_per_minute
    then record {
      blocked = true;
      code = codes "scope_guard.request_rate_exceeded";
      message = codes "Action exceeds the program's maximum requests-per-minute limit.";
      reasons =
          (codes "request_rate_per_minute="
            ++ decimal action.request_rate_per_minute
            ++ codes " > max_requests_per_minute="
            ++ decimal policy.limits.max_requests_per_minute)
          ∷ [];
    }
    else if ltb policy.limits.max_targets_per_execution action.target_count
    then record {
      blocked = true;
      code = codes "scope_guard.target_count_exceeded";
      message = codes "Action touches more targets than the program policy allows.";
      reasons =
          (codes "target_count="
            ++ decimal action.target_count
            ++ codes " > max_targets_per_execution="
            ++ decimal policy.limits.max_targets_per_execution)
          ∷ [];
    }
    else record {
      blocked = false;
      code = codes "scope_guard.action_allowed";
      message = codes "Action does not violate any forbidden rule or hard limit.";
      reasons = [];
    }

blocked_result : Text → Text → List Text → ActionValidationResult
blocked_result code message reasons = record {
  allowed = false;
  blocked = true;
  requires_manual_approval = false;
  code = code;
  message = message;
  reasons = reasons;
}

-- the part of `validate_action` behind the scope check
unfoldable pub judge :
    ProgramPolicy → ProposedAction → TargetValidationResult → ActionValidationResult
unfolding blocked_result
judge policy action target_result =
    let block_result = block_prohibited_action policy action in
    let approval_result = requires_manual_approval policy action in
    if target_result.in_scope
    then (if block_result.blocked
        then blocked_result block_result.code block_result.message block_result.reasons
        else if approval_result.requires_manual_approval
        then record {
          allowed = true;
          blocked = false;
          requires_manual_approval = true;
          code = approval_result.code;
          message = approval_result.message;
          reasons = approval_result.reasons;
        }
        else record {
          allowed = true;
          blocked = false;
          requires_manual_approval = false;
          code = codes "scope_guard.allowed";
          message = codes "Target and action validated within program policy.";
          reasons = [];
        })
    else blocked_result target_result.code target_result.message (target_result.message ∷ [])

module _ (bracketed_ok : Text → Bool) where
  -- `_normalize_target`
  unfoldable pub normalize_target : Text → Text → Result (Option Text)
  unfolding host_or_error with_scheme
  normalize_target identifier target_type =
      let candidate = strip identifier in
      if is_empty candidate
      then ok none
      else if is_host_type target_type
      then host_or_error (urlparse bracketed_ok (with_scheme candidate))
      else ok (some (lower candidate))

  unfoldable pub validate_target_in_scope :
      ProgramPolicy → Text → Text → Result TargetValidationResult
  unfolding check_target
  validate_target_in_scope policy identifier target_type =
      map_ok (check_target policy) (normalize_target identifier target_type)

  unfoldable pub validate_action : ProgramPolicy → ProposedAction → Result ActionValidationResult
  unfolding judge
  validate_action policy action =
      map_ok (judge policy action)
        (validate_target_in_scope policy action.target_identifier action.target_type)
