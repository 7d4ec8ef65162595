-- ===== src/Tests/Access.antt =====
-- Two people with an API key, and the variants of one domain.
use seclab.Prelude.{ℕ, ◌≡◌, ◌≤◌, refl, some, find}
use seclab.Prelude.Text.{Text, codes, text_beq}
use seclab.Security.Models.{ok, role_rank, analyst}
use seclab.Db.{◌>>=◌, gets}
use seclab.Security.Auth.{user_for, get_current_user, require_role}
use seclab.Security.Auth.Access.{
  IsAuthenticated, get_current_user-IsAuthenticated, require_role-IsAuthenticated,
}
use seclab.Prelude.{List, [], ◌∷◌}
use seclab.Phantom.Scoring.{RiskSignal, DomainInfrastructure, score_asset}
use seclab.Phantom.Scoring.Explained.{IsExplained, score_asset-IsExplained}
use seclab.Phantom.Discovery.{DomainVariation, TargetProfile, generate_domain_variants}
use seclab.Phantom.Discovery.Variants.{IsVariants, generate_domain_variants-IsVariants}
use seclab.Tests.Data.{alice, bob, empty_session}

-- any keyed function will do for a digest
abbrev hmac : Text → Text → Text
hmac pepper key = key

alice_known : (get_current_user hmac (codes "pepper") (some (codes "a")) empty_session).1 ≡ ok alice
unfolding get_current_user codes ◌>>=◌ gets user_for find text_beq
alice_known = refl

get_current_user-IsAuthenticated_example :
    IsAuthenticated hmac (codes "pepper") empty_session (some (codes "a")) alice
get_current_user-IsAuthenticated_example =
    get_current_user-IsAuthenticated hmac (codes "pepper") empty_session (some (codes "a")) alice
      alice_known

bob_entitled :
    (require_role hmac (codes "pepper") analyst (some (codes "b")) empty_session).1 ≡ ok bob
unfolding require_role ◌>>=◌ get_current_user codes gets user_for find text_beq role_rank
bob_entitled = refl

require_role-IsAuthenticated_example :
    IsAuthenticated hmac (codes "pepper") empty_session (some (codes "b")) bob
    × ((have : ℕ) × (required : ℕ) × (role_rank bob.role ≡ ok have)
        × (role_rank analyst ≡ ok required)
        × (required ≤ have))
require_role-IsAuthenticated_example =
    require_role-IsAuthenticated hmac (codes "pepper") analyst empty_session (some (codes "b")) bob
      bob_entitled

abbrev acme : TargetProfile
acme = record {
  original_input = codes "Acme.com ";
  normalized_target = codes "acme.com";
  brand_keyword = codes "acme";
  root_domain = some (codes "acme.com");
  apex_domain = some (codes "acme.com");
}

generate_domain_variants-IsVariants_example : IsVariants acme 10 (generate_domain_variants acme 10)
generate_domain_variants-IsVariants_example = generate_domain_variants-IsVariants acme 10

abbrev look_alike : DomainVariation
look_alike = record {
  domain = codes "4cme.com";
  technique = codes "homoglyph";
  source_target = codes "acme.com";
  risk_context_tags = codes "homoglyph-risk" ∷ [];
}

abbrev hosted : DomainInfrastructure
hosted = record {
  rdap_org = some (codes "Privacy Inc");
  ip_addresses = codes "8.8.8.8" ∷ [];
  reputation_tags = codes "new" ∷ [];
}

abbrev scored : ℕ × Text × List RiskSignal × Text
scored = score_asset look_alike (codes "crt.sh" ∷ []) hosted

score_asset-IsExplained_example : IsExplained scored.0 scored.1 scored.2
score_asset-IsExplained_example = score_asset-IsExplained look_alike (codes "crt.sh" ∷ []) hosted
