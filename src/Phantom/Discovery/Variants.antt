-- ===== src/Phantom/Discovery/Variants.antt =====
-- What the variants of a domain satisfy.
use seclab.Prelude.{
  ℕ, zero, suc, ◌≡◌, ◌≤◌, refl, sym, ap, Bool, true, false, not, ◌||◌, List, [], ◌∷◌, ◌++◌, arith,
  any, take, length, leb, All, Bool-cases, inl, inr,
}
use seclab.Prelude.Text.{Text, text_eq, text_beq_iff}
use seclab.Security.Url.{has}
use seclab.Phantom.Discovery.{
  TargetProfile, DomainVariation, names, is_root, add, add_all, candidates,
  generate_domain_variants,
}

-- No two variants have one domain.
abbrev pub IsDistinct : List DomainVariation → Type 0
IsDistinct [] = Unit
IsDistinct (v ∷ variants) = (any (names v.domain) variants ≡ false) × IsDistinct variants

length-append :
    (xs : List DomainVariation) (x : DomainVariation) → length (xs ++ x ∷ []) ≡ suc (length xs)
length-append [] x = refl
length-append (y ∷ xs) x = ap suc (length-append xs x)

take_all : (n : ℕ) (xs : List DomainVariation) → length xs ≤ n → take n xs ≡ xs
unfolding take
take_all zero [] h = refl
take_all zero (x ∷ xs) h = absurd (omega (arith, h))
take_all (suc n) [] h = refl
take_all (suc n) (x ∷ xs) h =
    ap (λ (ys : List DomainVariation). x ∷ ys) (take_all n xs (omega (arith, h)))

names_sym : (v w : DomainVariation) → names v.domain w ≡ false → names w.domain v ≡ false
names_sym v w h = elim (Bool-cases (names w.domain v)) [
  | inr other ↦ other
  | inl same ↦
      let back : names v.domain w ≡ true =
        (text_beq_iff w.domain v.domain).1 (sym ((text_beq_iff v.domain w.domain).0 same)) in
      absurd (ground (arith, h, back))
]

any-append :
    (p : DomainVariation → Bool) (xs : List DomainVariation) (y : DomainVariation)
    → any p xs ≡ false
    → p y ≡ false
    → any p (xs ++ y ∷ []) ≡ false
unfolding any
any-append p [] y h q = ground (arith, q)
any-append p (x ∷ xs) y h q = ground (arith, h, any-append p xs y, q)

append-IsDistinct :
    (variants : List DomainVariation) (x : DomainVariation)
    → IsDistinct variants
    → any (names x.domain) variants ≡ false
    → IsDistinct (variants ++ x ∷ [])
unfolding any
append-IsDistinct [] x h n = (refl, tt)
append-IsDistinct (v ∷ variants) x (first, h) n = (
  any-append (names v.domain) variants x first (names_sym x v (ground (arith, n))),
  append-IsDistinct variants x h (ground (arith, n)),
)

append-All :
    (P : DomainVariation → Type 0) (xs : List DomainVariation) (x : DomainVariation)
    → All P xs
    → P x
    → All P (xs ++ x ∷ [])
append-All P [] x h p = (p, tt)
append-All P (y ∷ xs) x (q, h) p = (q, append-All P xs x h p)

module _ (profile : TargetProfile) (limit : ℕ) where
  -- Bounded in number, distinct, each with a dot, and none the target itself.
  pub record IsVariants (variants : List DomainVariation) : Type 0 where
    pub bounded : length variants ≤ limit
    pub distinct : IsDistinct variants
    pub dotted : All (λ v. has b'.' v.domain ≡ true) variants
    pub other : All (λ v. is_root profile.root_domain v.domain ≡ false) variants

  add-IsVariants :
      (candidate technique tag : Text) (variants : List DomainVariation)
      → IsVariants variants
      → IsVariants (add profile limit candidate technique tag variants)
  unfolding add
  add-IsVariants candidate technique tag variants h =
      elim (Bool-cases (leb limit (length variants) || not (has b'.' candidate))) [
        | inl full ↦ rw full h
        | inr room ↦ elim (Bool-cases (is_root profile.root_domain candidate)) [
          | inl root ↦ rw (room, root) h
          | inr foreign ↦ elim (Bool-cases (any (names candidate) variants)) [
            | inl known ↦ rw (room, foreign, known) h
            | inr new ↦
                rw (room, foreign, new)
                  (record {
                    bounded = rw (length-append variants _) (ground (arith, room));
                    distinct = append-IsDistinct variants _ h.distinct new;
                    dotted =
                        append-All (λ v. has b'.' v.domain ≡ true) variants _ h.dotted
                          (ground (arith, room));
                    other =
                        append-All (λ v. is_root profile.root_domain v.domain ≡ false) variants _
                          h.other foreign;
                  })
          ]
        ]
      ]

  add_all-IsVariants :
      (candidates : List (Text × Text × Text)) (variants : List DomainVariation)
      → IsVariants variants
      → IsVariants (add_all profile limit candidates variants)
  unfolding add_all
  add_all-IsVariants [] variants h = h
  add_all-IsVariants ((candidate, technique, tag) ∷ rest) variants h =
      add_all-IsVariants rest _ (add-IsVariants candidate technique tag variants h)

  take-IsVariants :
      (variants : List DomainVariation) → IsVariants variants → IsVariants (take limit variants)
  take-IsVariants variants h = rw (take_all limit variants h.bounded) h

  -- At most as many variants are generated as the limit says, no two with one domain; each has a
  -- dot, and none is the target's own domain.
  pub generate_domain_variants-IsVariants : IsVariants (generate_domain_variants profile limit)
  unfolding generate_domain_variants
  generate_domain_variants-IsVariants = take-IsVariants _ (
      add_all-IsVariants (candidates profile.brand_keyword) []
        (record { bounded = omega arith; distinct = tt; dotted = tt; other = tt }))
