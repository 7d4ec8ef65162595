-- ===== src/Security/Scope/Decision.antt =====
-- The answers of the scope guard against what they promise: a target is in scope exactly when its
-- host is covered by the allowlist and by no pattern of the denylist.
use seclab.Prelude.{
  ◌≡◌, ◌↔◌, refl, inl, inr, Bool, true, false, Option, none, some, List, [], arith, Bool-cases,
  Option-cases, All, All-map, Any, Any-map, find-none, find-eq-none, find-some, find-Any, find,
  find_of_Any,
}
use seclab.Prelude.Text.{Text}
use seclab.Security.Models.{Result, ok, err, map_ok}
use seclab.Security.Scope.{ProgramPolicy, TargetValidationResult, domain_matches, match_first}
use seclab.Security.Scope.Guard.{
  check_host, check_target, normalize_target, validate_target_in_scope,
}
use seclab.Security.Scope.Matching.{Covers, domain_matches_iff}

-- Admitted as in scope: an exception admits nothing.
abbrev pub admits : Result TargetValidationResult → Bool
admits (ok r) = r.in_scope
admits (err e) = false

-- What the policy promises of a host.
pub record IsInScope (policy : ProgramPolicy) (host : Text) : Type 0 where
  pub allowed : Any (Covers host) policy.allowed_domains
  pub not_denied : All (λ p. ¬ Covers host p) policy.denied_domains

module _ (host : Text) where
  uncovered : (p : Text) → domain_matches host p ≡ false → ¬ Covers host p
  uncovered p e c = ground (arith, e, (domain_matches_iff host p).1 c)

  not_matched : (p : Text) → ¬ Covers host p → domain_matches host p ≡ false
  not_matched p h = elim (Bool-cases (domain_matches host p)) [
    | inl e ↦ absurd (h ((domain_matches_iff host p).0 e))
    | inr e ↦ e
  ]

  match_first-none : (ps : List Text) → match_first host ps ≡ none → All (λ p. ¬ Covers host p) ps
  unfolding match_first
  match_first-none ps h = All-map uncovered ps (find-none (domain_matches host) ps h)

  match_first-eq-none :
      (ps : List Text) → All (λ p. ¬ Covers host p) ps → match_first host ps ≡ none
  unfolding match_first
  match_first-eq-none ps h = find-eq-none (domain_matches host) ps (All-map not_matched ps h)

  match_first-some :
      (ps : List Text) (a : Text) → match_first host ps ≡ some a → Any (Covers host) ps
  unfolding match_first
  match_first-some ps a h =
      Any-map (λ p e. rw e ((domain_matches_iff host a).0 (find-some (domain_matches host) ps a h)))
        (find-Any (domain_matches host) ps a h)

  match_first_of_Any :
      {ps : List Text} → Any (Covers host) ps → (a : Text) × (match_first host ps ≡ some a)
  unfolding match_first
  match_first_of_Any h =
      find_of_Any (domain_matches host) (Any-map (λ p c. (domain_matches_iff host p).1 c) h)

match_first-nil : (host : Text) → match_first host [] ≡ none
unfolding match_first find
match_first-nil host = refl

module _ (policy : ProgramPolicy) (host : Text) where
  check_host_denied :
      (check_host policy host).in_scope ≡ true → match_first host policy.denied_domains ≡ none
  unfolding check_host
  check_host_denied h = ground arith

  check_host_allowed :
      (check_host policy host).in_scope ≡ true
      → (a : Text) × (match_first host policy.allowed_domains ≡ some a)
  unfolding check_host
  check_host_allowed h = elim (Option-cases (match_first host policy.allowed_domains)) [
    | inl e ↦ absurd (ground (arith, e))
    | inr found ↦ found
  ]

  check_host_in_scope :
      (a : Text)
      → match_first host policy.denied_domains ≡ none
      → match_first host policy.allowed_domains ≡ some a
      → (check_host policy host).in_scope ≡ true
  unfolding check_host
  check_host_in_scope a d e = ground (arith, match_first-nil host)

  check_host-IsInScope : ((check_host policy host).in_scope ≡ true) ↔ IsInScope policy host
  check_host-IsInScope = (
    λ h.
        let (a, e) = check_host_allowed h in
        record {
          allowed = match_first-some host policy.allowed_domains a e;
          not_denied = match_first-none host policy.denied_domains (check_host_denied h);
        },
    λ s.
        let (a, e) = match_first_of_Any host s.allowed in
        check_host_in_scope a (match_first-eq-none host policy.denied_domains s.not_denied) e,
  )

module _ (bracketed_ok : Text → Bool) (policy : ProgramPolicy) (identifier target_type : Text) where
  -- The host that the guard reads off the target is there, and the policy covers it.
  abbrev pub TargetInScope : Type 0
  TargetInScope =
      (host : Text) × (normalize_target bracketed_ok identifier target_type ≡ ok (some host))
      × IsInScope policy host

  IsInScope-of_admits :
      (t : Result (Option Text))
      → admits (map_ok (check_target policy) t) ≡ true
      → (host : Text) × (t ≡ ok (some host)) × IsInScope policy host
  unfolding check_target
  IsInScope-of_admits (ok (some host)) h = (host, refl, (check_host-IsInScope policy host).0 h)
  IsInScope-of_admits (ok none) h = absurd (ground (arith, h))
  IsInScope-of_admits (err e) h = absurd (ground (arith, h))

  -- A target is admitted exactly when a host is read off it that some pattern of the allowlist
  -- covers and no pattern of the denylist does; an empty allowlist, a target without a host and
  -- one that cannot be parsed are never admitted.
  pub validate_target_in_scope_iff :
      (admits (validate_target_in_scope bracketed_ok policy identifier target_type) ≡ true)
      ↔ TargetInScope
  unfolding validate_target_in_scope
  validate_target_in_scope_iff = (
    λ h. IsInScope-of_admits (normalize_target bracketed_ok identifier target_type) h,
    λ t.
        let (host, e, s) = t in
        rw e (unfold check_target in (check_host-IsInScope policy host).1 s),
  )
