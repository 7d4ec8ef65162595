-- ===== src/Prelude/Lists.antt =====
-- Lists: length over the native numbers, predicates by recursion, search and replacement of rows.
use Prim.Native.Nat.{ℕ, zero, suc, ◌+◌, ◌≤◌}
use mathlib.Core.Path.{◌≡◌, refl}
use mathlib.Core.Logic.{◌⊎◌, inl, inr}
use mathlib.Core.Bool.{Bool, true, false, ◌||◌}
use mathlib.Core.Option.{Option, none, some}
use mathlib.Core.List.{List, [], ◌∷◌, ◌++◌}
use native.Mathlib.Omega.{arith}
use seclab.Prelude.Tests.{if◌then◌else◌, Bool-cases}

module _ {ℓ} {A : Type ℓ} where
  abbrev pub length : List A → ℕ
  length [] = 0
  length (x ∷ xs) = suc (length xs)

  -- `xs[:n]`
  unfoldable pub take : ℕ → List A → List A
  take zero xs = []
  take (suc n) [] = []
  take (suc n) (x ∷ xs) = x ∷ take n xs

  -- `any(p(x) for x in xs)`
  unfoldable pub any : (A → Bool) → List A → Bool
  any p [] = false
  any p (x ∷ xs) = p x || any p xs

  -- the first element that passes the test
  unfoldable pub find : (A → Bool) → List A → Option A
  find p [] = none
  find p (x ∷ xs) = if p x then some x else find p xs

  -- `[x for x in xs if p(x)]`
  unfoldable pub select : (A → Bool) → List A → List A
  select p [] = []
  select p (x ∷ xs) = let rest = select p xs in if p x then x ∷ rest else rest

  unfoldable pub count : (A → Bool) → List A → ℕ
  count p [] = 0
  count p (x ∷ xs) = (if p x then 1 else 0) + count p xs

module _ {ℓ κ} {A : Type ℓ} (P : A → Type κ) where
  abbrev pub All : List A → Type κ
  All [] = Unit
  All (x ∷ xs) = P x × All xs

  pub data Any : List A → Type (ℓ ⊔ κ) where
    here : {x : A} {xs : List A} → P x → Any (x ∷ xs)
    there : {x : A} {xs : List A} → Any xs → Any (x ∷ xs)

module _ {ℓ κ μ} {A : Type ℓ} {P : A → Type κ} {Q : A → Type μ} (f : (a : A) → P a → Q a) where
  pub All-map : (xs : List A) → All P xs → All Q xs
  All-map [] h = tt
  All-map (x ∷ xs) (p, h) = (f x p, All-map xs h)

  pub Any-map : {xs : List A} → Any P xs → Any Q xs
  Any-map (here p) = here (f _ p)
  Any-map (there h) = there (Any-map h)

pub All-of_mem {ℓ κ} :
    {A : Type ℓ} (P : A → Type κ) (xs : List A) → ((a : A) → Any (λ r. r ≡ a) xs → P a) → All P xs
All-of_mem P [] h = tt
All-of_mem P (x ∷ xs) h = (h x (here refl), All-of_mem P xs (λ a m. h a (there m)))

pub append-All {ℓ κ} :
    {A : Type ℓ} (P : A → Type κ) (xs ys : List A) → All P xs → All P ys → All P (xs ++ ys)
append-All P [] ys h k = k
append-All P (x ∷ xs) ys (p, h) k = (p, append-All P xs ys h k)

pub length-append {ℓ} : {A : Type ℓ} (xs ys : List A) → length (xs ++ ys) ≡ length xs + length ys
length-append [] ys = omega arith
length-append (x ∷ xs) ys = omega (arith, length-append xs ys)

pub Any-cases {ℓ κ} :
    {A : Type ℓ} {P : A → Type κ} {x : A} {xs : List A} → Any P (x ∷ xs) → P x ⊎ Any P xs
Any-cases (here p) = inl p
Any-cases (there h) = inr h

module _ {ℓ} {A : Type ℓ} (p : A → Bool) where
  pub find-none : (xs : List A) → find p xs ≡ none → All (λ x. p x ≡ false) xs
  unfolding find
  find-none [] h = tt
  find-none (x ∷ xs) h = elim (Bool-cases (p x)) [
    | inl e ↦ absurd (ground (arith, e, h))
    | inr e ↦ (e, find-none xs (rw (e, find) at h))
  ]

  pub find-eq-none : (xs : List A) → All (λ x. p x ≡ false) xs → find p xs ≡ none
  unfolding find
  find-eq-none [] h = refl
  find-eq-none (x ∷ xs) (e, h) = rw e (find-eq-none xs h)

  pub find-some : (xs : List A) (a : A) → find p xs ≡ some a → p a ≡ true
  unfolding find
  find-some [] a h = ground arith
  find-some (x ∷ xs) a h = ground (arith, find-some xs a)

  pub find-Any : (xs : List A) (a : A) → find p xs ≡ some a → Any (λ x. x ≡ a) xs
  unfolding find
  find-Any [] a h = absurd (ground (arith, h))
  find-Any (x ∷ xs) a h = elim (Bool-cases (p x)) [
    | inl e ↦ here (ground (arith, e, h))
    | inr e ↦ there (find-Any xs a (rw (e, find) at h))
  ]

  pub find_of_Any : {xs : List A} → Any (λ x. p x ≡ true) xs → (a : A) × (find p xs ≡ some a)
  unfolding find
  find_of_Any (here {x} {xs} e) = (x, rw e refl)
  find_of_Any (there {x} {xs} h) = elim (Bool-cases (p x)) [
    | inl e ↦ (x, rw e refl)
    | inr e ↦ let (a, found) = find_of_Any h in (a, rw e found)
  ]

  pub count-zero : (xs : List A) → find p xs ≡ none → count p xs ≡ 0
  unfolding find count
  count-zero [] h = refl
  count-zero (x ∷ xs) h = ground (arith, count-zero xs)

  pub select-All :
      (P : A → Type 0) (xs : List A) → All P (select p xs) → All (λ x. p x ≡ true → P x) xs
  unfolding select
  select-All P [] h = tt
  select-All P (x ∷ xs) h = elim (Bool-cases (p x)) [
    | inl e ↦ let both = rw (e, if◌then◌else◌) at h in (λ _. both.0, select-All P xs both.1)
    | inr e ↦ (λ q. absurd (ground (arith, e, q)), select-All P xs (rw (e, if◌then◌else◌) at h))
  ]

  pub select-Any :
      {P : A → Type 0} (xs : List A) → Any P (select p xs) → Any (λ x. (p x ≡ true) × P x) xs
  unfolding select
  select-Any [] h = elim h [ ]
  select-Any (x ∷ xs) h = elim (Bool-cases (p x)) [
    | inl e ↦ elim (Any-cases (rw (e, if◌then◌else◌) at h)) [
      | inl q ↦ here (e, q)
      | inr later ↦ there (select-Any xs later)
    ]
    | inr e ↦ there (select-Any xs (rw (e, if◌then◌else◌) at h))
  ]

  pub count-append : (xs ys : List A) → count p (xs ++ ys) ≡ count p xs + count p ys
  unfolding count
  count-append [] ys = omega arith
  count-append (x ∷ xs) ys = ground (arith, count-append xs ys)

  pub count-le : (xs : List A) → count p xs ≤ length xs
  unfolding count
  count-le [] = omega arith
  count-le (x ∷ xs) = ground (arith, count-le xs)
