-- ===== src/Tests/Scope.antt =====
-- The scope guard on a policy with one wildcard and one exception.
use seclab.Prelude.{◌≡◌, ◌↔◌, refl, true, false, List, [], ◌∷◌}
use seclab.Prelude.{any, select, find}
use seclab.Prelude.Text.{
  Text, codes, text_beq, strip, lower, starts_with, ends_with, contains, drop,
}
use seclab.Security.Url.{urlparse, hostname}
use seclab.Security.Models.{ok}
use seclab.Security.Scope.{
  matches_technique, ProposedAction, ActionValidationResult, domain_matches, is_host_type,
  match_first, normalize_str_list,
}
use seclab.Security.Scope.Guard.{
  normalize_target, judge, block_prohibited_action, requires_manual_approval,
  validate_target_in_scope, validate_action,
}
use seclab.Security.Scope.Matching.{Covers, domain_matches_iff}
use seclab.Security.Scope.Decision.{admits, TargetInScope, validate_target_in_scope_iff}
use seclab.Security.Scope.Action.{IsVerdict, validate_action-IsVerdict}
use seclab.Security.Scope.Normal.{
  IsNormalized, normalize_str_list-IsNormalized, normalize_str_list_idem,
}
use seclab.Tests.Data.{no_brackets, policy}

abbrev action : ProposedAction
action = record {
  target_identifier = codes "https://user@WWW.example.com:8443/a?b#c";
  target_type = codes "url";
  technique = codes "parameter fuzzing";
  description = codes "";
  request_rate_per_minute = 20;
  target_count = 1;
  state_changing = false;
  requires_authentication = false;
}

abbrev verdict : ActionValidationResult
verdict = record {
  allowed = true;
  blocked = false;
  requires_manual_approval = true;
  code = codes "scope_guard.manual_approval_required";
  message = codes "The proposed action requires manual approval before execution.";
  reasons = codes "Technique 'parameter fuzzing' classified as sensitive by program policy." ∷ [];
}

action_verdict : validate_action no_brackets policy action ≡ ok verdict
unfolding validate_action validate_target_in_scope normalize_target strip codes is_host_type
    text_beq lower urlparse starts_with any select contains drop hostname match_first find ends_with
    judge block_prohibited_action matches_technique requires_manual_approval
action_verdict = refl

validate_action-IsVerdict_example : IsVerdict policy action no_brackets verdict
validate_action-IsVerdict_example =
    validate_action-IsVerdict policy action no_brackets verdict action_verdict

validate_target_in_scope_iff_example :
    (admits
        (validate_target_in_scope no_brackets policy (codes "admin.example.com") (codes "domain"))
      ≡ true)
    ↔ TargetInScope no_brackets policy (codes "admin.example.com") (codes "domain")
validate_target_in_scope_iff_example =
    validate_target_in_scope_iff no_brackets policy (codes "admin.example.com") (codes "domain")

domain_matches_iff_example :
    (domain_matches (codes "www.example.com") (codes " *.Example.com") ≡ true)
    ↔ Covers (codes "www.example.com") (codes " *.Example.com")
domain_matches_iff_example = domain_matches_iff (codes "www.example.com") (codes " *.Example.com")

abbrev untidy : List Text
untidy = codes " A.com" ∷ codes "" ∷ codes "a.com " ∷ codes "b.com" ∷ []

normalize_str_list-IsNormalized_example : IsNormalized untidy (normalize_str_list untidy)
normalize_str_list-IsNormalized_example = normalize_str_list-IsNormalized untidy

normalize_str_list_idem_example :
    normalize_str_list (normalize_str_list untidy) ≡ normalize_str_list untidy
normalize_str_list_idem_example = normalize_str_list_idem untidy
