-- ===== src/Db/Updates.antt =====
-- What an update of the row with a given id does to a table.
use seclab.Prelude.{
  ℕ, suc, ◌<◌, ◌≡◌, ◌≢◌, refl, ap, Bool, true, false, List, [], ◌∷◌, arith, length, count, Any,
  here, there, All, All-map, nat_beq, nat_beq_iff, Bool-cases, inl, inr,
}
use seclab.Db.Rows.{update_row, IsNumbered, id-le}

module _ {A : Type 0} (id : A → ℕ) (n : ℕ) (f : A → A) where
  pub All-update_row :
      (P : A → Type 0) (rows : List A)
      → ((r : A) → P r → P (f r))
      → All P rows
      → All P (update_row id n f rows)
  unfolding update_row
  All-update_row P [] k h = tt
  All-update_row P (r ∷ rows) k (p, h) = elim (Bool-cases (nat_beq (id r) n)) [
    | inl same ↦ rw same (k r p, All-update_row P rows k h)
    | inr other ↦ rw other (p, All-update_row P rows k h)
  ]

  length-update_row : (rows : List A) → length (update_row id n f rows) ≡ length rows
  unfolding update_row
  length-update_row [] = refl
  length-update_row (r ∷ rows) = ap suc (length-update_row rows)

  module _ (same_id : (r : A) → id (f r) ≡ id r) where
    pub update_row-IsNumbered :
        (rows : List A) → IsNumbered id rows → IsNumbered id (update_row id n f rows)
    unfolding update_row
    update_row-IsNumbered [] h = tt
    update_row-IsNumbered (r ∷ rows) (e, h) =
        (ground (arith, length-update_row rows, same_id r), update_row-IsNumbered rows h)

  pub update_row_absent : (rows : List A) → All (λ r. id r ≢ n) rows → update_row id n f rows ≡ rows
  unfolding update_row
  update_row_absent [] h = refl
  update_row_absent (r ∷ rows) (other, h) = ground (arith, update_row_absent rows h)

  -- A test that the change leaves alone counts as before.
  pub count-update_row :
      (p : A → Bool) (rows : List A)
      → ((r : A) → id r ≡ n → p (f r) ≡ p r)
      → count p (update_row id n f rows) ≡ count p rows
  unfolding count update_row
  count-update_row p [] k = refl
  count-update_row p (r ∷ rows) k = elim (Bool-cases (nat_beq (id r) n)) [
    | inl same ↦ rw (same, k r ((nat_beq_iff (id r) n).0 same), count-update_row p rows k) refl
    | inr other ↦ rw (other, count-update_row p rows k) refl
  ]

  -- The one row with the id starts to pass a test: one row more passes.
  pub count-update_row-suc :
      (p : A → Bool) (rows : List A)
      → IsNumbered id rows
      → Any (λ r. (id r ≡ n) × (p r ≡ false) × (p (f r) ≡ true)) rows
      → count p (update_row id n f rows) ≡ suc (count p rows)
  unfolding count update_row
  count-update_row-suc p [] num h = elim h [ ]
  count-update_row-suc p (r ∷ rows) (e, num) (here (same, before, after)) =
      let absent : All (λ x. id x ≢ n) rows =
        All-map (λ x le here_too. absurd (omega (arith, e, same, le, here_too))) rows
          (id-le id rows (length rows) num (omega arith)) in
      rw (update_row_absent rows absent) (ground (arith, same, before, after))
  count-update_row-suc p (r ∷ rows) (e, num) (there h) =
      ground (arith, count-update_row-suc p rows num h, e, later_id-le rows num h)
    where
      later_id-le :
          (rows : List A)
          → IsNumbered id rows
          → Any (λ r. (id r ≡ n) × (p r ≡ false) × (p (f r) ≡ true)) rows
          → n < suc (length rows)
      later_id-le [] num h = elim h [ ]
      later_id-le (r ∷ rows) (e, num) (here (same, before, after)) = omega arith
      later_id-le (r ∷ rows) (e, num) (there h) = omega (arith, later_id-le rows num h)
