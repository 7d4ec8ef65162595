-- ===== src/Prelude/Order.antt =====
-- Rows in the order of a key, the greatest first: `order_by(desc(key))`. Rows with one key keep
-- their order.
use Prim.Native.Nat.{ℕ, ◌+◌, ◌≤◌}
use mathlib.Core.Path.{◌≡◌, refl}
use mathlib.Core.Logic.{inl, inr}
use mathlib.Core.Bool.{Bool}
use mathlib.Core.List.{List, [], ◌∷◌}
use native.Mathlib.Nat.{le_trans}
use native.Mathlib.Omega.{arith}
use seclab.Prelude.Tests.{ltb, if◌then◌else◌, Bool-cases}
use seclab.Prelude.Lists.{All, All-map, Any, Any-cases, here, there, count}

module _ {A : Type 0} (key : A → ℕ) where
  unfoldable pub insert_desc : A → List A → List A
  insert_desc a [] = a ∷ []
  insert_desc a (b ∷ rows) = if ltb (key a) (key b) then b ∷ insert_desc a rows else a ∷ b ∷ rows

  unfoldable pub order_desc : List A → List A
  unfolding insert_desc
  order_desc [] = []
  order_desc (a ∷ rows) = insert_desc a (order_desc rows)

  -- No row has a greater key than one before it.
  abbrev pub IsDescending : List A → Type 0
  IsDescending [] = Unit
  IsDescending (a ∷ rows) = All (λ b. key b ≤ key a) rows × IsDescending rows

  module _ (P : A → Type 0) where
    insert_desc-All : (a : A) (rows : List A) → P a → All P rows → All P (insert_desc a rows)
    unfolding insert_desc
    insert_desc-All a [] p h = (p, tt)
    insert_desc-All a (b ∷ rows) p (q, h) = ground (arith, insert_desc-All a rows p h)

    pub order_desc-All : (rows : List A) → All P rows → All P (order_desc rows)
    unfolding order_desc
    order_desc-All [] h = tt
    order_desc-All (a ∷ rows) (p, h) = insert_desc-All a (order_desc rows) p (order_desc-All rows h)

  insert_desc-IsDescending :
      (a : A) (rows : List A) → IsDescending rows → IsDescending (insert_desc a rows)
  unfolding insert_desc
  insert_desc-IsDescending a [] h = (tt, tt)
  insert_desc-IsDescending a (b ∷ rows) (top, h) = elim (Bool-cases (ltb (key a) (key b))) [
    | inl less ↦ rw less (
      insert_desc-All (λ r. key r ≤ key b) a rows (ground (arith, less)) top,
      insert_desc-IsDescending a rows h,
    )
    | inr above ↦
        let le : key b ≤ key a = ground (arith, above) in
        rw above ((le, All-map (λ r q. le_trans q le) rows top), (top, h))
  ]

  pub order_desc-IsDescending : (rows : List A) → IsDescending (order_desc rows)
  unfolding order_desc
  order_desc-IsDescending [] = tt
  order_desc-IsDescending (a ∷ rows) =
      insert_desc-IsDescending a (order_desc rows) (order_desc-IsDescending rows)

  count-insert_desc :
      (p : A → Bool) (a : A) (rows : List A)
      → count p (insert_desc a rows) ≡ (if p a then 1 else 0) + count p rows
  unfolding insert_desc count
  count-insert_desc p a [] = refl
  count-insert_desc p a (b ∷ rows) = ground (arith, count-insert_desc p a rows)

  pub count-order_desc : (p : A → Bool) (rows : List A) → count p (order_desc rows) ≡ count p rows
  unfolding order_desc count
  count-order_desc p [] = refl
  count-order_desc p (a ∷ rows) =
      ground (arith, count-insert_desc p a (order_desc rows), count-order_desc p rows)

  insert_desc-here : (P : A → Type 0) (a : A) (rows : List A) → P a → Any P (insert_desc a rows)
  unfolding insert_desc
  insert_desc-here P a [] p = here p
  insert_desc-here P a (b ∷ rows) p = elim (Bool-cases (ltb (key a) (key b))) [
    | inl e ↦ rw e (there (insert_desc-here P a rows p))
    | inr e ↦ rw e (here p)
  ]

  insert_desc-there :
      (P : A → Type 0) (a : A) (rows : List A) → Any P rows → Any P (insert_desc a rows)
  unfolding insert_desc
  insert_desc-there P a [] h = elim h [ ]
  insert_desc-there P a (b ∷ rows) h = elim (Bool-cases (ltb (key a) (key b))) [
    | inl e ↦
        rw e elim (Any-cases h) [
          | inl p ↦ here p
          | inr later ↦ there (insert_desc-there P a rows later)
        ]
    | inr e ↦ rw e (there h)
  ]

  pub order_desc-Any : (P : A → Type 0) (rows : List A) → Any P rows → Any P (order_desc rows)
  unfolding order_desc
  order_desc-Any P [] h = elim h [ ]
  order_desc-Any P (a ∷ rows) h = elim (Any-cases h) [
    | inl p ↦ insert_desc-here P a (order_desc rows) p
    | inr later ↦ insert_desc-there P a (order_desc rows) (order_desc-Any P rows later)
  ]
