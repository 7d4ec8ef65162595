-- ===== src/AttackSurface/Probed.antt =====
-- packages/modules/attack_surface/src/seclab_attack_surface/service.py: the contacts that a survey
-- does not leave out.
use seclab.Prelude.{◌≡◌, refl, ℕ, Bool, Option, List, [], ◌∷◌, All, Any, here, there}
use seclab.Prelude.Text.{Text}
use seclab.AttackSurface.{common_ports}
use seclab.AttackSurface.Service.{Contact, name_lookup, port_probe, add_probes, survey}

-- The address of the host was looked up and each of the ports was tried.
pub record IsProbed (sent : List Contact) (host : Text) : Type 0 where
  pub looked_up : Any (λ c. c ≡ name_lookup host) sent
  pub probed : All (λ p. Any (λ c. c ≡ port_probe host p) sent) common_ports

add_probes_keeps :
    (host : Text) (ports : List ℕ) (c : Contact) (sent : List Contact)
    → Any (λ k. k ≡ c) sent
    → Any (λ k. k ≡ c) (add_probes host ports sent)
unfolding add_probes
add_probes_keeps host [] c sent m = m
add_probes_keeps host (p ∷ ports) c sent m = add_probes_keeps host ports c _ (there m)

add_probes-All :
    (host : Text) (ports : List ℕ) (sent : List Contact)
    → All (λ p. Any (λ c. c ≡ port_probe host p) (add_probes host ports sent)) ports
unfolding add_probes
add_probes-All host [] sent = tt
add_probes-All host (p ∷ ports) sent =
    (add_probes_keeps host ports (port_probe host p) _ (here refl), add_probes-All host ports _)

module _ (getaddrinfo : Text → Option (List Text)) (connector : Text → ℕ → Bool) where
  survey_keeps :
      (hosts : List Text) (c : Contact) (sent : List Contact)
      → Any (λ k. k ≡ c) sent
      → Any (λ k. k ≡ c) (survey getaddrinfo connector hosts sent).0
  unfolding survey
  survey_keeps [] c sent m = m
  survey_keeps (host ∷ hosts) c sent m =
      survey_keeps hosts c _ (add_probes_keeps host common_ports c _ (there m))

  All-kept :
      (hosts : List Text) (host : Text) (ports : List ℕ) (sent : List Contact)
      → All (λ p. Any (λ c. c ≡ port_probe host p) sent) ports
      → All
          (λ p. Any (λ c. c ≡ port_probe host p) (survey getaddrinfo connector hosts sent).0)
          ports
  All-kept hosts host [] sent h = tt
  All-kept hosts host (p ∷ ports) sent (m, h) =
      (survey_keeps hosts (port_probe host p) sent m, All-kept hosts host ports sent h)

  pub survey-IsProbed :
      (hosts : List Text) (sent : List Contact)
      → All (IsProbed (survey getaddrinfo connector hosts sent).0) hosts
  unfolding survey
  survey-IsProbed [] sent = tt
  survey-IsProbed (host ∷ hosts) sent = (
    record {
      looked_up =
          survey_keeps hosts (name_lookup host) _
            (add_probes_keeps host common_ports (name_lookup host) _ (here refl));
      probed = All-kept hosts host common_ports _ (add_probes-All host common_ports _);
    },
    survey-IsProbed hosts _,
  )
