-- ===== src/AttackSurface/Gated.antt =====
-- What a scan contacts: nothing unless the scope guard admits the target, and then only the
-- names that the certificates of the target gave.
use seclab.Prelude.{
  ℕ, ◌≡◌, refl, ap, Bool, true, false, Option, some, List, [], ◌∷◌, ◌++◌, map, arith, All, Any,
  here, there, Bool-cases, inl, inr,
}
use seclab.Prelude.Text.{Text, codes}
use seclab.Security.Models.{Result, ok, err, ok_injective}
use seclab.Security.Scope.{TargetValidationResult}
use seclab.Security.Scope.Guard.{validate_target_in_scope}
use seclab.Security.Scope.Decision.{admits, TargetInScope, validate_target_in_scope_iff}
use seclab.AttackSurface.{SurfaceScanRequest, SurfaceScanResult, common_ports}
use seclab.AttackSurface.Named.{IsNames, extract_hostnames-IsNames}
use seclab.AttackSurface.Honest.{IsHonest, discovered_host-IsHonest}
use seclab.AttackSurface.Probed.{IsProbed, survey-IsProbed}
use seclab.AttackSurface.Service.{
  Contact, ct_fetch, name_lookup, port_probe, Lab, extract_hostnames, add_probes, discovered_host,
  survey, with_report, persist, scan_blocked, scan_completed, scan_found, scan_validated, run_scan,
}

-- No contact was made, and whatever result there is says that the target is out of scope.
pub record IsRefusal (before : Lab) (outcome : Lab × Result SurfaceScanResult) : Type 0 where
  pub silent : outcome.0.sent ≡ before.sent
  pub reported : (r : SurfaceScanResult) → outcome.1 ≡ ok r → (r.in_scope ≡ false) × (r.hosts ≡ [])

-- A contact with one of the names, on one of the ports.
abbrev pub IsAbout : List Text → Contact → Type 0
IsAbout names (ct_fetch domain) = ⊥
IsAbout names (name_lookup host) = Any (λ n. n ≡ host) names
IsAbout names (port_probe host port) = Any (λ n. n ≡ host) names × Any (λ p. p ≡ port) common_ports

-- The list with more contacts in front of it.
pub record IsExtended (P : Contact → Type 0) (before after : List Contact) : Type 0 where
  pub more : List Contact
  pub extends : after ≡ more ++ before
  pub every : All P more

add_probes-IsExtended :
    (P : Contact → Type 0) (host : Text) (ports : List ℕ) (before sent : List Contact)
    → ((p : ℕ) → Any (λ q. q ≡ p) ports → P (port_probe host p))
    → IsExtended P before sent
    → IsExtended P before (add_probes host ports sent)
unfolding add_probes
add_probes-IsExtended P host [] before sent h k = k
add_probes-IsExtended P host (p ∷ ports) before sent h k =
    add_probes-IsExtended P host ports before (port_probe host p ∷ sent) (λ q m. h q (there m))
      (record {
        more = port_probe host p ∷ k.more;
        extends = ap (λ c. port_probe host p ∷ c) k.extends;
        every = (h p (here refl), k.every);
      })

module _ (getaddrinfo : Text → Option (List Text)) (connector : Text → ℕ → Bool) where
  survey-IsExtended :
      (names hosts : List Text) (before sent : List Contact)
      → ((n : Text) → Any (λ h. h ≡ n) hosts → Any (λ h. h ≡ n) names)
      → IsExtended (IsAbout names) before sent
      → IsExtended (IsAbout names) before (survey getaddrinfo connector hosts sent).0
  unfolding survey
  survey-IsExtended names [] before sent h k = k
  survey-IsExtended names (host ∷ hosts) before sent h k =
      survey-IsExtended names hosts before _ (λ n m. h n (there m))
        (add_probes-IsExtended (IsAbout names) host common_ports before _
          (λ p m. (h host (here refl), m))
          (record {
            more = name_lookup host ∷ k.more;
            extends = ap (λ c. name_lookup host ∷ c) k.extends;
            every = (h host (here refl), k.every);
          }))

  survey_hosts :
      (hosts : List Text) (sent : List Contact)
      → (survey getaddrinfo connector hosts sent).1
        ≡ map (discovered_host getaddrinfo connector) hosts
  unfolding survey
  survey_hosts [] sent = refl
  survey_hosts (host ∷ hosts) sent =
      ap (λ others. discovered_host getaddrinfo connector host ∷ others) (survey_hosts hosts _)

  hosts-IsHonest :
      (hosts : List Text) (sent : List Contact)
      → All (IsHonest connector) (survey getaddrinfo connector hosts sent).1
  unfolding survey
  hosts-IsHonest [] sent = tt
  hosts-IsHonest (host ∷ hosts) sent =
      (discovered_host-IsHonest getaddrinfo connector host, hosts-IsHonest hosts _)

module _ (bracketed_ok : Text → Bool) (fetch : Text → Option (List (List Text)))
    (getaddrinfo : Text → Option (List Text)) (connector : Text → ℕ → Bool) (isoformat : ℕ → Text)
    (dump : SurfaceScanResult → Text) where
  module _ (request : SurfaceScanRequest) (scan_id : Text) (created_at : ℕ) (lab : Lab) where
    abbrev pub scan : Lab × Result SurfaceScanResult
    scan =
        run_scan bracketed_ok fetch getaddrinfo connector isoformat dump request scan_id created_at
          lab

    scan_validated-IsRefusal :
        (t : Result TargetValidationResult)
        → admits t ≡ false
        → IsRefusal lab (
            scan_validated bracketed_ok fetch getaddrinfo connector isoformat dump request scan_id
              created_at lab t)
    unfolding scan_validated scan_blocked with_report persist
    scan_validated-IsRefusal (err e) h = record { silent = refl; reported = λ r e. ground arith }
    scan_validated-IsRefusal (ok s) h =
        rw h (record { silent = refl; reported = λ r e. rw (← ok_injective _ r e) (refl, refl) })

    not_admitted :
        ¬ TargetInScope bracketed_ok request.scope_policy request.domain (codes "domain")
        → admits (
            validate_target_in_scope bracketed_ok request.scope_policy request.domain
              (codes "domain"))
          ≡ false
    not_admitted h =
        elim (Bool-cases (
          admits (
            validate_target_in_scope bracketed_ok request.scope_policy request.domain
              (codes "domain")))) [
                | inl e ↦ absurd (
                    h (
                      (validate_target_in_scope_iff bracketed_ok request.scope_policy request.domain
                          (codes "domain")).0
                        e))
                | inr e ↦ e
              ]

    -- A scan of a target that the scope policy does not admit contacts nothing: no certificate
    -- log, no name server and no port of any host; its result, if it has one, is out of scope
    -- and lists no host.
    pub run_scan_refused :
        ¬ TargetInScope bracketed_ok request.scope_policy request.domain (codes "domain")
        → IsRefusal lab scan
    unfolding run_scan
    run_scan_refused h = scan_validated-IsRefusal _ (not_admitted h)

    -- The scan returned a result that is in scope and lists one host for each of the names, and
    -- its contacts are one with the certificate log and then only ones with the names.
    pub record IsSurvey (observations : List (List Text)) (outcome : Lab × Result SurfaceScanResult)
        : Type 0 where
      pub result : SurfaceScanResult
      pub returned : outcome.1 ≡ ok result
      pub in_scope : result.in_scope ≡ true
      pub hosts :
          result.hosts
          ≡ map
              (discovered_host getaddrinfo connector)
              (extract_hostnames request.domain observations)
      pub names :
          IsNames request.domain observations (extract_hostnames request.domain observations)
      pub every : All (IsProbed outcome.0.sent) (extract_hostnames request.domain observations)
      pub honest : All (IsHonest connector) result.hosts
      pub contacts :
          IsExtended
            (IsAbout (extract_hostnames request.domain observations))
            (ct_fetch request.domain ∷ lab.sent)
            outcome.0.sent

    scan_validated-IsSurvey :
        (t : Result TargetValidationResult) (observations : List (List Text))
        → admits t ≡ true
        → fetch request.domain ≡ some observations
        → IsSurvey observations (
            scan_validated bracketed_ok fetch getaddrinfo connector isoformat dump request scan_id
              created_at lab t)
    unfolding scan_validated scan_found persist
    scan_validated-IsSurvey (err e) observations h found = absurd (ground (arith, h))
    scan_validated-IsSurvey (ok s) observations h found =
        let names = extract_hostnames request.domain observations in
        let start = ct_fetch request.domain ∷ lab.sent in
        rw (h, found)
          (record {
            result =
                scan_completed bracketed_ok fetch getaddrinfo connector isoformat dump request
                  scan_id created_at s (survey getaddrinfo connector names start).1;
            returned = refl;
            in_scope = unfold scan_completed in refl;
            names = extract_hostnames-IsNames request.domain observations;
            every = survey-IsProbed getaddrinfo connector names start;
            honest = unfold scan_completed in hosts-IsHonest getaddrinfo connector names start;
            hosts = unfold scan_completed in survey_hosts getaddrinfo connector names start;
            contacts =
                survey-IsExtended getaddrinfo connector names names start start (λ n m. m)
                  (record { more = []; extends = refl; every = tt });
          })

    -- A scan of a target that the scope policy admits, with an answer of the certificate log,
    -- returns a result that is in scope and lists the target and the names that the identities in
    -- the certificates are cleaned to, each once and none missed unless it is empty. Of each name
    -- it lists the open ports in ascending order, exactly the common ones that accept a
    -- connection, and exactly the exposure tags of these. After the certificate log it contacts
    -- only these names, on the common ports, and it looks up and probes every one of them: only
    -- the target is checked against the scope policy, and a name in a certificate that the policy
    -- denies, or that no pattern of it allows, is probed all the same.
    pub run_scan-IsSurvey :
        (observations : List (List Text))
        → TargetInScope bracketed_ok request.scope_policy request.domain (codes "domain")
        → fetch request.domain ≡ some observations
        → IsSurvey observations scan
    unfolding run_scan
    run_scan-IsSurvey observations h found =
        scan_validated-IsSurvey _ observations
          ((validate_target_in_scope_iff bracketed_ok request.scope_policy request.domain
              (codes "domain")).1
            h)
          found
