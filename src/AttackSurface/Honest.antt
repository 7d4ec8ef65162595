-- ===== src/AttackSurface/Honest.antt =====
-- What a scan reports of one host.
use seclab.Prelude.{
  ℕ, ◌≡◌, ◌↔◌, refl, Bool, true, List, [], ◌∷◌, map, arith, All, All-map, Any, Any-map, All-of_mem,
  Any-cases, here, there, Bool-cases, inl, inr, any, ◌==◌, select, ltb, nat_beq_iff, nat_eq, Option,
}
use seclab.Prelude.Sorted.{sorted, sorted-All, sorted-Any, sorted-IsAscending, IsAscending}
use seclab.Prelude.Parts.{All-lookup, select_sound, select_complete}
use seclab.Prelude.Text.{Text}
use seclab.AttackSurface.{DiscoveredHost, common_ports, exposure_tags, tag_open_ports, probe_ports}
use seclab.AttackSurface.Service.{discovered_host}

any_port : (n : ℕ) (ports : List ℕ) → (any (λ p. p == n) ports ≡ true) ↔ Any (λ p. p ≡ n) ports
unfolding any
any_port n [] = (λ h. absurd (ground (arith, h)), λ h. elim h [ ])
any_port n (p ∷ ports) = (
  λ h. elim (Bool-cases (p == n)) [
    | inl e ↦ here ((nat_beq_iff p n).0 e)
    | inr e ↦ there ((any_port n ports).0 (ground (arith, h, e)))
  ],
  λ m. elim (Any-cases m) [
    | inl e ↦ ground (arith, (nat_beq_iff p n).1 e)
    | inr later ↦ ground (arith, (any_port n ports).1 later)
  ],
)

module _ {A B : Type 0} (f : A → B) where
  map_from : (P : B → Type 0) (xs : List A) → All (λ x. P (f x)) xs → All P (map f xs)
  map_from P [] h = tt
  map_from P (x ∷ xs) (p, h) = (p, map_from P xs h)

  map_has : (xs : List A) (a : A) → Any (λ x. x ≡ a) xs → Any (λ y. y ≡ f a) (map f xs)
  map_has [] a m = elim m [ ]
  map_has (x ∷ xs) a (here e) = here (rw e refl)
  map_has (x ∷ xs) a (there m) = there (map_has xs a m)

-- What a scan reports of a host: the ports in ascending order, exactly the common ones that
-- answer, and exactly the tags of the table whose port is among them.
pub record IsHonest (connector : Text → ℕ → Bool) (host : DiscoveredHost) : Type 0 where
  pub ordered : IsAscending host.open_ports
  pub found :
      All (λ p. (connector host.hostname p ≡ true) × Any (λ q. q ≡ p) common_ports) host.open_ports
  pub missed_none :
      All (λ p. connector host.hostname p ≡ true → Any (λ q. q ≡ p) host.open_ports) common_ports
  pub tagged :
      All
        (λ t. Any (λ row. (row.1 ≡ t) × Any (λ p. p ≡ row.0) host.open_ports) exposure_tags)
        host.unexpected_exposure_tags
  pub tags :
      All
        (λ row.
          Any (λ p. p ≡ row.0) host.open_ports → Any (λ t. t ≡ row.1) host.unexpected_exposure_tags)
        exposure_tags

-- Of every host that a scan visits, the result lists the open ports in ascending order, exactly
-- the common ones that accept a connection, and its exposure tags are exactly those of the table
-- whose port is open.
pub discovered_host-IsHonest :
    (getaddrinfo : Text → Option (List Text)) (connector : Text → ℕ → Bool) (hostname : Text)
    → IsHonest connector (discovered_host getaddrinfo connector hostname)
unfolding discovered_host probe_ports tag_open_ports
discovered_host-IsHonest getaddrinfo connector hostname =
    let ports = select (connector hostname) common_ports in
    let unsorted =
      sorted-All ltb (λ p. Any (λ q. q ≡ p) ports) ports
        (All-of_mem (λ p. Any (λ q. q ≡ p) ports) ports (λ p m. m)) in
    let test : ℕ × Text → Bool = λ row. any (λ p. p == row.0) ports in
    record {
      ordered = sorted-IsAscending ports;
      found = sorted-All ltb _ ports (select_sound (connector hostname) common_ports);
      missed_none =
          All-of_mem (λ p. connector hostname p ≡ true → Any (λ q. q ≡ p) (sorted ltb ports))
            common_ports
            λ p m e.
              sorted-Any ltb _ ports (select_complete (connector hostname) common_ports p m e);
      tagged =
          map_from (λ row. row.1)
            (λ t. Any (λ row. (row.1 ≡ t) × Any (λ p. p ≡ row.0) (sorted ltb ports)) exposure_tags)
            (select test exposure_tags)
            (All-map
              (λ row (e, m).
                Any-map
                  (λ r same. rw same (refl, sorted-Any ltb _ ports ((any_port row.0 ports).0 e))) m)
              (select test exposure_tags) (select_sound test exposure_tags));
      tags =
          All-of_mem
            (λ row.
              Any (λ p. p ≡ row.0) (sorted ltb ports)
              → Any (λ t. t ≡ row.1) (map (λ row. row.1) (select test exposure_tags)))
            exposure_tags
            λ row m opened.
              map_has (λ row. row.1) (select test exposure_tags) row
                (select_complete test exposure_tags row m (
                  (any_port row.0 ports).1 (
                    All-lookup (λ p. Any (λ q. q ≡ p) ports) (sorted ltb ports) row.0 unsorted
                      opened)));
    }
