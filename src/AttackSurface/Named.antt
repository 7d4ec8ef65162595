-- ===== src/AttackSurface/Named.antt =====
-- The names that a scan visits, and what it reports of each.
use seclab.Prelude.{
  append-All, ◌≡◌, refl, sym, ◌⊎◌, true, false, List, [], ◌∷◌, ◌++◌, arith, All, All-map, Any, here,
  there, Bool-cases, inl, inr, any, ◌==◌, nat_eq,
}
use seclab.Prelude.Parts.{append-Any, append_later}
use seclab.Prelude.Text.{Text, is_empty, text_eq, text_beq_iff}
use seclab.AttackSurface.{add_new}
use seclab.AttackSurface.Service.{cleaned, add_identities, add_observations, extract_hostnames}

abbrev pub IsDistinct : List Text → Type 0
IsDistinct [] = Unit
IsDistinct (n ∷ names) = All (λ m. ¬ (m ≡ n)) names × IsDistinct names

append-IsDistinct :
    (names : List Text) (n : Text)
    → IsDistinct names
    → All (λ m. ¬ (m ≡ n)) names
    → IsDistinct (names ++ (n ∷ []))
append-IsDistinct [] n h fresh = (tt, tt)
append-IsDistinct (m ∷ names) n (apart, h) (other, fresh) = (
  append-All (λ k. ¬ (k ≡ m)) names (n ∷ []) apart (λ e. other (sym e), tt),
  append-IsDistinct names n h fresh,
)

not_any :
    (n : Text) (names : List Text) → any (λ i. i == n) names ≡ false → All (λ m. ¬ (m ≡ n)) names
unfolding any
not_any n [] h = tt
not_any n (m ∷ names) h =
    (λ e. ground (arith, h, (text_beq_iff m n).1 e), not_any n names (ground (arith, h)))

any_of : (n : Text) (names : List Text) → any (λ i. i == n) names ≡ true → Any (λ m. m ≡ n) names
unfolding any
any_of n [] h = absurd (ground (arith, h))
any_of n (m ∷ names) h = elim (Bool-cases (m == n)) [
  | inl e ↦ here ((text_beq_iff m n).0 e)
  | inr e ↦ there (any_of n names (ground (arith, h, e)))
]

module _ (n : Text) (names : List Text) where
  add_new-IsDistinct : IsDistinct names → IsDistinct (add_new n names)
  unfolding add_new
  add_new-IsDistinct h = elim (Bool-cases (any (λ i. i == n) names)) [
    | inl e ↦ rw e h
    | inr e ↦ rw e (append-IsDistinct names n h (not_any n names e))
  ]

  add_new_has : Any (λ m. m ≡ n) (add_new n names)
  unfolding add_new
  add_new_has = elim (Bool-cases (any (λ i. i == n) names)) [
    | inl e ↦ rw e (any_of n names e)
    | inr e ↦ rw e (append_later (λ m. m ≡ n) names (n ∷ []) (here refl))
  ]

  module _ (P : Text → Type 0) where
    add_new-All : All P names → P n → All P (add_new n names)
    unfolding add_new
    add_new-All h p = elim (Bool-cases (any (λ i. i == n) names)) [
      | inl e ↦ rw e h
      | inr e ↦ rw e (append-All P names (n ∷ []) h (p, tt))
    ]

    add_new-Any : Any P names → Any P (add_new n names)
    unfolding add_new
    add_new-Any h = elim (Bool-cases (any (λ i. i == n) names)) [
      | inl e ↦ rw e h
      | inr e ↦ rw e (append-Any P names (n ∷ []) h)
    ]

module _ (Q : List Text → Type 0) where
  add_identities-Kept :
      (ids names : List Text)
      → ((n : Text) (ns : List Text) → Any (λ i. cleaned i ≡ n) ids → Q ns → Q (add_new n ns))
      → Q names
      → Q (add_identities ids names)
  unfolding add_identities
  add_identities-Kept [] names k q = q
  add_identities-Kept (i ∷ ids) names k q =
      add_identities-Kept ids _ (λ n ns m. k n ns (there m))
        (elim (Bool-cases (is_empty (cleaned i))) [
          | inl e ↦ rw e q
          | inr e ↦ rw e (k (cleaned i) names (here refl) q)
        ])

  add_observations-Kept :
      (observations : List (List Text)) (names : List Text)
      → ((n : Text) (ns : List Text)
          → Any (λ ids. Any (λ i. cleaned i ≡ n) ids) observations
          → Q ns
          → Q (add_new n ns))
      → Q names
      → Q (add_observations observations names)
  unfolding add_observations
  add_observations-Kept [] names k q = q
  add_observations-Kept (ids ∷ observations) names k q =
      add_observations-Kept observations _ (λ n ns m. k n ns (there m))
        (add_identities-Kept ids names (λ n ns m. k n ns (here m)) q)

-- The name that an identity of a certificate gives, unless it is empty, is on the list.
abbrev pub IsListed : List Text → Text → Type 0
IsListed names i = is_empty (cleaned i) ≡ false → Any (λ n. n ≡ cleaned i) names

add_identities-IsListed : (ids names : List Text) → All (IsListed (add_identities ids names)) ids
unfolding add_identities
add_identities-IsListed [] names = tt
add_identities-IsListed (i ∷ ids) names = (
  λ e. rw e (
      add_identities-Kept (Any (λ n. n ≡ cleaned i)) ids _
        (λ n ns m q. add_new-Any n ns (λ k. k ≡ cleaned i) q) (add_new_has (cleaned i) names)),
  add_identities-IsListed ids _,
)

add_observations-IsListed :
    (observations : List (List Text)) (names : List Text)
    → All (All (IsListed (add_observations observations names))) observations
unfolding add_observations
add_observations-IsListed [] names = tt
add_observations-IsListed (ids ∷ observations) names = (
  All-map
      (λ i listed e.
        add_observations-Kept (Any (λ n. n ≡ cleaned i)) observations _
          (λ n ns m q. add_new-Any n ns (λ k. k ≡ cleaned i) q) (listed e))
      ids (add_identities-IsListed ids names),
  add_observations-IsListed observations _,
)

-- The target and the names in its certificates, each once.
pub record IsNames (domain : Text) (observations : List (List Text)) (names : List Text)
    : Type 0 where
  pub distinct : IsDistinct names
  pub target : Any (λ n. n ≡ domain) names
  pub certified :
      All (λ n. (n ≡ domain) ⊎ Any (λ ids. Any (λ i. cleaned i ≡ n) ids) observations) names
  pub complete : All (All (IsListed names)) observations

-- The names that a scan visits have no duplicates; the target is one, every other is what some
-- identity in a certificate is cleaned to, and no identity is missed unless it is cleaned to
-- nothing.
pub extract_hostnames-IsNames :
    (domain : Text) (observations : List (List Text))
    → IsNames domain observations (extract_hostnames domain observations)
unfolding extract_hostnames
extract_hostnames-IsNames domain observations = record {
  distinct =
      add_observations-Kept IsDistinct observations _ (λ n ns m q. add_new-IsDistinct n ns q)
        (tt, tt);
  target =
      add_observations-Kept (Any (λ n. n ≡ domain)) observations _
        (λ n ns m q. add_new-Any n ns (λ k. k ≡ domain) q) (here refl);
  certified =
      add_observations-Kept
        (All (λ n. (n ≡ domain) ⊎ Any (λ ids. Any (λ i. cleaned i ≡ n) ids) observations))
        observations _ (λ n ns m q. add_new-All n ns _ q (inr m)) (inl refl, tt);
  complete = add_observations-IsListed observations (domain ∷ []);
}
