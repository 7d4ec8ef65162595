-- ===== src/Prelude/Parts.antt =====
-- Predicates on the parts of a list: its beginning, its two halves, one element.
use Prim.Native.Nat.{ℕ, zero, suc, ◌≤◌}
use mathlib.Core.Bool.{Bool, true}
use mathlib.Core.Logic.{inl, inr}
use seclab.Prelude.Tests.{Bool-cases}
use mathlib.Core.Path.{◌≡◌, refl}
use mathlib.Core.List.{List, [], ◌∷◌, ◌++◌}
use native.Mathlib.Omega.{arith}
use seclab.Prelude.Lists.{take, select, length, All, All-map, Any, here, there}

module _ {A : Type 0} where
  pub length-take-le : (n : ℕ) (xs : List A) → length (take n xs) ≤ n
  unfolding take
  length-take-le zero xs = omega arith
  length-take-le (suc n) [] = omega arith
  length-take-le (suc n) (x ∷ xs) = omega (arith, length-take-le n xs)

  module _ (P : A → Type 0) where
    pub take-All : (n : ℕ) (xs : List A) → All P xs → All P (take n xs)
    unfolding take
    take-All zero xs h = tt
    take-All (suc n) [] h = tt
    take-All (suc n) (x ∷ xs) (p, h) = (p, take-All n xs h)

    pub append-Any : (xs ys : List A) → Any P xs → Any P (xs ++ ys)
    append-Any [] ys h = elim h [ ]
    append-Any (x ∷ xs) ys (here p) = here p
    append-Any (x ∷ xs) ys (there h) = there (append-Any xs ys h)

    pub append_later : (xs ys : List A) → Any P ys → Any P (xs ++ ys)
    append_later [] ys h = h
    append_later (x ∷ xs) ys h = there (append_later xs ys h)

    -- What holds of every element holds of each.
    pub All-lookup : (xs : List A) (a : A) → All P xs → Any (λ x. x ≡ a) xs → P a
    All-lookup [] a h m = elim m [ ]
    All-lookup (x ∷ xs) a (p, h) (here e) = rw (← e) p
    All-lookup (x ∷ xs) a (p, h) (there m) = All-lookup xs a h m

  module _ (p : A → Bool) where
    pub select_sound : (xs : List A) → All (λ x. (p x ≡ true) × Any (λ y. y ≡ x) xs) (select p xs)
    unfolding select
    select_sound [] = tt
    select_sound (x ∷ xs) =
        let rest = All-map (λ y (e, m). (e, there m)) (select p xs) (select_sound xs) in
        elim (Bool-cases (p x)) [ inl e ↦ rw e ((e, here refl), rest) | inr e ↦ rw e rest ]

    pub select_complete :
        (xs : List A) (x : A) → Any (λ y. y ≡ x) xs → p x ≡ true → Any (λ y. y ≡ x) (select p xs)
    unfolding select
    select_complete [] x m e = elim m [ ]
    select_complete (y ∷ xs) x (here same) e = rw (same, e) (here refl)
    select_complete (y ∷ xs) x (there m) e = elim (Bool-cases (p y)) [
      | inl q ↦ rw q (there (select_complete xs x m e))
      | inr q ↦ rw q (select_complete xs x m e)
    ]
