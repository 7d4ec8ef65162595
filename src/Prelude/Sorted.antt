-- ===== src/Prelude/Sorted.antt =====
-- `sorted(xs)`, by a test that says which elements come before which; elements that neither
-- precedes keep their order.
use seclab.Prelude.Tests.{ltb, nat_beq, if◌then◌else◌, Bool-cases}
use seclab.Prelude.Lists.{All, All-map, Any, Any-cases, here, there}
use Prim.Native.Nat.{ℕ, ◌≤◌}
use mathlib.Core.Logic.{inl, inr}
use mathlib.Core.Bool.{Bool, true, false, ◌||◌, ◌&&◌}
use mathlib.Core.List.{List, [], ◌∷◌}
use native.Mathlib.Nat.{le_trans}
use native.Mathlib.Omega.{arith}

-- Texts in the order of their code points.
unfoldable pub text_ltb : List ℕ → List ℕ → Bool
text_ltb s [] = false
text_ltb [] (c ∷ t) = true
text_ltb (b ∷ s) (c ∷ t) = ltb b c || (nat_beq b c && text_ltb s t)

module _ {A : Type 0} (before : A → A → Bool) where
  unfoldable pub insert_by : A → List A → List A
  insert_by a [] = a ∷ []
  insert_by a (b ∷ rows) = if before b a then b ∷ insert_by a rows else a ∷ b ∷ rows

  unfoldable pub sorted : List A → List A
  sorted [] = []
  sorted (a ∷ rows) = insert_by a (sorted rows)

  module _ (P : A → Type 0) where
    insert_by-All : (a : A) (rows : List A) → P a → All P rows → All P (insert_by a rows)
    unfolding insert_by
    insert_by-All a [] p h = (p, tt)
    insert_by-All a (b ∷ rows) p (q, h) = ground (arith, insert_by-All a rows p h)

    pub sorted-All : (rows : List A) → All P rows → All P (sorted rows)
    unfolding sorted
    sorted-All [] h = tt
    sorted-All (a ∷ rows) (p, h) = insert_by-All a (sorted rows) p (sorted-All rows h)

    insert_by-here : (a : A) (rows : List A) → P a → Any P (insert_by a rows)
    unfolding insert_by
    insert_by-here a [] p = here p
    insert_by-here a (b ∷ rows) p = elim (Bool-cases (before b a)) [
      | inl e ↦ rw e (there (insert_by-here a rows p))
      | inr e ↦ rw e (here p)
    ]

    insert_by-there : (a : A) (rows : List A) → Any P rows → Any P (insert_by a rows)
    unfolding insert_by
    insert_by-there a [] h = elim h [ ]
    insert_by-there a (b ∷ rows) h = elim (Bool-cases (before b a)) [
      | inl e ↦
          rw e
            elim (Any-cases h) [ inl p ↦ here p | inr later ↦ there (insert_by-there a rows later) ]
      | inr e ↦ rw e (there h)
    ]

    pub sorted-Any : (rows : List A) → Any P rows → Any P (sorted rows)
    unfolding sorted
    sorted-Any [] h = elim h [ ]
    sorted-Any (a ∷ rows) h = elim (Any-cases h) [
      | inl p ↦ insert_by-here a (sorted rows) p
      | inr later ↦ insert_by-there a (sorted rows) (sorted-Any rows later)
    ]

-- No number is greater than one behind it.
abbrev pub IsAscending : List ℕ → Type 0
IsAscending [] = Unit
IsAscending (a ∷ rows) = All (λ b. a ≤ b) rows × IsAscending rows

insert_by-IsAscending :
    (a : ℕ) (rows : List ℕ) → IsAscending rows → IsAscending (insert_by ltb a rows)
unfolding insert_by
insert_by-IsAscending a [] h = (tt, tt)
insert_by-IsAscending a (b ∷ rows) (low, h) = elim (Bool-cases (ltb b a)) [
  | inl less ↦ rw less (
    insert_by-All ltb (λ r. b ≤ r) a rows (ground (arith, less)) low,
    insert_by-IsAscending a rows h,
  )
  | inr above ↦
      let le : a ≤ b = ground (arith, above) in
      rw above ((le, All-map (λ r q. le_trans le q) rows low), (low, h))
]

pub sorted-IsAscending : (rows : List ℕ) → IsAscending (sorted ltb rows)
unfolding sorted
sorted-IsAscending [] = tt
sorted-IsAscending (a ∷ rows) = insert_by-IsAscending a (sorted ltb rows) (sorted-IsAscending rows)
