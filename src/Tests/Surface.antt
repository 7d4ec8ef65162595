-- ===== src/Tests/Surface.antt =====
-- A scan of one host in scope, and of one that the policy excludes.
use seclab.Prelude.{
  arith, any, select, find, All, ℕ, ◌≡◌, refl, Bool, true, false, Option, some, List, [], ◌∷◌, ◌==◌,
  nat_eq, if◌then◌else◌,
}
use seclab.Prelude.Text.{
  Text, codes, text_eq, text_beq, strip, lower, starts_with, ends_with, contains, drop,
}
use seclab.Security.Url.{urlparse, hostname}
use seclab.Security.Models.{Result, ok}
use seclab.AttackSurface.{SurfaceScanRequest, SurfaceScanResult, add_new, get}
use seclab.AttackSurface.Kept.{
  put_result, put_results, no_results, save_all, get-save_all, IsReadBack,
}
use seclab.AttackSurface.Persisted.{get_scan-run_scan}
use seclab.Security.Scope.{is_host_type, match_first}
use seclab.Security.Scope.Guard.{
  check_target, check_host, normalize_target, validate_target_in_scope,
}
use seclab.Security.Scope.Decision.{admits, TargetInScope, validate_target_in_scope_iff}
use seclab.AttackSurface.Gated.{IsRefusal, run_scan_refused, IsSurvey, run_scan-IsSurvey}
use seclab.AttackSurface.Service.{
  Lab, run_scan, get_scan, scan_completed, survey, extract_hostnames, scan_validated, scan_found,
}
use seclab.Tests.Data.{no_brackets, policy}

abbrev certificates : Text → Option (List (List Text))
certificates domain = some ((codes "*.www.example.com" ∷ codes " ADMIN.example.com " ∷ []) ∷ [])

abbrev getaddrinfo : Text → Option (List Text)
getaddrinfo host = some (codes "192.0.2.1" ∷ codes "192.0.2.1" ∷ [])

abbrev connector : Text → ℕ → Bool
connector host port = port == 443

abbrev isoformat : ℕ → Text
isoformat t = codes "now"

abbrev dump : SurfaceScanResult → Text
dump r = r.scan_id

abbrev scan_of : Text → SurfaceScanRequest
scan_of domain = record { domain = domain; scope_policy = policy }

abbrev lab : Lab
lab = record { sent = []; table = some [] }

admits_www :
    admits (validate_target_in_scope no_brackets policy (codes "www.example.com") (codes "domain"))
    ≡ true
unfolding validate_target_in_scope normalize_target strip codes is_host_type text_beq lower urlparse
    starts_with any select contains drop hostname match_first find ends_with
admits_www = refl

www_in_scope : TargetInScope no_brackets policy (codes "www.example.com") (codes "domain")
www_in_scope =
    (validate_target_in_scope_iff no_brackets policy (codes "www.example.com") (codes "domain")).0
      admits_www

admits_admin :
    admits
      (validate_target_in_scope no_brackets policy (codes "admin.example.com") (codes "domain"))
    ≡ false
unfolding validate_target_in_scope normalize_target strip codes is_host_type text_beq lower urlparse
    starts_with any select contains drop hostname match_first find
admits_admin = refl

admin_out_of_scope : ¬ TargetInScope no_brackets policy (codes "admin.example.com") (codes "domain")
admin_out_of_scope h = ground (
  arith,
  admits_admin,
  (validate_target_in_scope_iff no_brackets policy (codes "admin.example.com") (codes "domain")).1
      h,
)

abbrev outcome : Text → Lab × Result SurfaceScanResult
outcome domain =
    run_scan no_brackets certificates getaddrinfo connector isoformat dump (scan_of domain)
      (codes "scan") 7 lab

run_scan_refused_example : IsRefusal lab (outcome (codes "admin.example.com"))
run_scan_refused_example =
    run_scan_refused no_brackets certificates getaddrinfo connector isoformat dump
      (scan_of (codes "admin.example.com")) (codes "scan") 7 lab admin_out_of_scope

abbrev observed : List (List Text)
observed = (codes "*.www.example.com" ∷ codes " ADMIN.example.com " ∷ []) ∷ []

run_scan-IsSurvey_example :
    IsSurvey no_brackets certificates getaddrinfo connector isoformat dump
      (scan_of (codes "www.example.com"))
      (codes "scan")
      7
      lab
      observed
      (outcome (codes "www.example.com"))
run_scan-IsSurvey_example =
    run_scan-IsSurvey no_brackets certificates getaddrinfo connector isoformat dump
      (scan_of (codes "www.example.com")) (codes "scan") 7 lab observed www_in_scope refl

abbrev result_of : Text → ℕ → SurfaceScanResult
result_of scan_id created_at = record {
  scan_id = scan_id;
  created_at = created_at;
  domain = codes "www.example.com";
  in_scope = true;
  hosts = [];
  report_markdown = [];
  metadata = [];
}

-- reads back the newer of two results under one id, and one under another
abbrev parse : Text → Option SurfaceScanResult
parse payload =
    if payload == codes "a" then some (result_of (codes "a") 2) else some (result_of (codes "b") 3)

read_back : All (IsReadBack dump parse) (result_of (codes "a") 2 ∷ result_of (codes "b") 3 ∷ [])
unfolding codes text_beq
read_back = (refl, (refl, tt))

get-save_all_example :
    get parse
      (codes "a")
      (save_all dump parse (result_of (codes "a") 2 ∷ result_of (codes "b") 3 ∷ []) [])
    ≡ put_results (result_of (codes "a") 2 ∷ result_of (codes "b") 3 ∷ []) no_results (codes "a")
get-save_all_example =
    get-save_all dump parse (result_of (codes "a") 2 ∷ result_of (codes "b") 3 ∷ []) (codes "a")
      read_back

abbrev surveyed : SurfaceScanResult
surveyed =
    scan_completed no_brackets certificates getaddrinfo connector isoformat dump
      (scan_of (codes "www.example.com")) (codes "scan") 7
      (check_host policy (codes "www.example.com"))
      (survey getaddrinfo connector (extract_hostnames (codes "www.example.com") observed) []).1

returned : (outcome (codes "www.example.com")).1 ≡ ok surveyed
unfolding run_scan scan_validated scan_found validate_target_in_scope normalize_target strip codes
    is_host_type text_beq lower urlparse starts_with any select contains drop hostname match_first
    find ends_with check_target add_new
returned = refl

abbrev parse_surveyed : Text → Option SurfaceScanResult
parse_surveyed payload = some surveyed

get_scan-run_scan_example :
    get_scan parse_surveyed (codes "scan") (outcome (codes "www.example.com")).0
    ≡ put_result surveyed (λ k. get parse_surveyed k []) (codes "scan")
get_scan-run_scan_example =
    get_scan-run_scan no_brackets certificates getaddrinfo connector isoformat dump parse_surveyed
      (scan_of (codes "www.example.com")) (codes "scan") 7 lab [] surveyed (codes "scan") refl
      returned refl
