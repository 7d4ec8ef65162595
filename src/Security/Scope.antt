-- ===== src/Security/Scope.antt =====
-- packages/seclab-core/src/seclab/security/scope_guard.py: the scope policy of a program, and the
-- gate that every target and action passes.
pub mod Guard
pub mod Matching
pub mod Decision
pub mod Action
pub mod Normal
use seclab.Prelude.{
  ℕ, ◌<◌, Bool, true, false, not, ◌&&◌, ◌||◌, Option, none, some, List, [], ◌∷◌, ◌++◌, map, any,
  find, ltb, ◌==◌, if◌then◌else◌,
}
use seclab.Prelude.Text.{
  Text, codes, lower, strip, starts_with, ends_with, contains, drop, is_empty, decimal, text_eq,
}
use seclab.Security.Models.{Result, ok, err, value_error}
use seclab.Security.Url.{urlparse, hostname}

-- `item in seen`
unfoldable pub member : Text → List Text → Bool
member item [] = false
member item (s ∷ seen) = s == item || member item seen

-- the loop of `_normalize_str_list`
unfoldable pub normalize_from : List Text → List Text → List Text
normalize_from seen [] = []
normalize_from seen (item ∷ items) =
    let cleaned = lower (strip item) in
    let kept = cleaned ∷ normalize_from (cleaned ∷ seen) items in
    let rest = normalize_from seen items in
    if is_empty cleaned || member cleaned seen then rest else kept

unfoldable pub normalize_str_list : List Text → List Text
unfolding normalize_from
normalize_str_list items = normalize_from [] items

pub record ProgramPolicyLimits : Type 0 where
  pub max_requests_per_minute : ℕ
  pub manual_approval_request_rate : ℕ
  pub max_targets_per_execution : ℕ
  pub manual_approval_techniques : List Text

pub record ProgramPolicy : Type 0 where
  pub allowed_domains : List Text
  pub denied_domains : List Text
  pub forbidden_techniques : List Text
  pub limits : ProgramPolicyLimits
  pub notes : Option Text

-- `ge=1` on the three numbers, and `validate_thresholds`
limits_ok : ProgramPolicyLimits → Bool
limits_ok l =
    ltb 0 l.max_requests_per_minute
    && ltb 0 l.manual_approval_request_rate
    && ltb 0 l.max_targets_per_execution
    && not (ltb l.max_requests_per_minute l.manual_approval_request_rate)

-- `ProgramPolicy.model_validate` on a dictionary that has these fields: a `ValidationError` is a
-- `ValueError`.
unfoldable pub model_validate : ProgramPolicy → Result ProgramPolicy
unfolding limits_ok normalize_str_list
model_validate p =
    if limits_ok p.limits
    then ok (record p {
      allowed_domains = normalize_str_list p.allowed_domains;
      denied_domains = normalize_str_list p.denied_domains;
      forbidden_techniques = normalize_str_list p.forbidden_techniques;
      limits = record p.limits {
        manual_approval_techniques = normalize_str_list p.limits.manual_approval_techniques;
      };
    })
    else err value_error

pub record ProposedAction : Type 0 where
  pub target_identifier : Text
  pub target_type : Text
  pub technique : Text
  pub description : Text
  pub request_rate_per_minute : ℕ
  pub target_count : ℕ
  pub state_changing : Bool
  pub requires_authentication : Bool

pub record TargetValidationResult : Type 0 where
  pub in_scope : Bool
  pub code : Text
  pub message : Text
  pub normalized_target : Option Text
  pub matched_rule : Option Text

pub record ManualApprovalResult : Type 0 where
  pub requires_manual_approval : Bool
  pub code : Text
  pub message : Text
  pub reasons : List Text

pub record ActionBlockResult : Type 0 where
  pub blocked : Bool
  pub code : Text
  pub message : Text
  pub reasons : List Text

pub record ActionValidationResult : Type 0 where
  pub allowed : Bool
  pub blocked : Bool
  pub requires_manual_approval : Bool
  pub code : Text
  pub message : Text
  pub reasons : List Text

-- `_domain_matches`
unfoldable pub domain_matches : Text → Text → Bool
domain_matches host pattern =
    let normalized = lower (strip pattern) in
    if is_empty normalized
    then false
    else if starts_with (codes "*.") normalized
    then ends_with (b'.' ∷ drop 2 normalized) host
    else host == normalized

-- `_match_first`
unfoldable pub match_first : Text → List Text → Option Text
unfolding domain_matches
match_first host patterns = find (domain_matches host) patterns

-- `_matches_technique`
unfoldable pub matches_technique : ProposedAction → List Text → Bool
matches_technique action policy_terms =
    let combined = lower (action.technique ++ codes " " ++ action.description) in
    any (λ term. contains term combined) policy_terms

-- `target_type.lower() in {"domain", "hostname", "url"}`
unfoldable pub is_host_type : Text → Bool
is_host_type target_type =
    let t = lower target_type in t == codes "domain" || t == codes "hostname" || t == codes "url"

or_none : Text → Option Text
or_none s = if is_empty s then none else some s

-- Python's `a or b` where `a` may be `None` or the empty text
or_text : Option Text → Text → Text
or_text none t = t
or_text (some s) t = if is_empty s then t else s
