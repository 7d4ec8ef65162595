-- ===== src/Db/Rows.antt =====
-- Tables whose rows carry ids: newest first, and numbered from 1 without gaps.
use mathlib.Core.Option
use seclab.Prelude.{
  ℕ, suc, ◌≡◌, ◌≤◌, refl, ap, inl, inr, Bool, false, Option, some, List, [], ◌∷◌, arith, length,
  Any, count, find-some, find-Any, nat_beq_iff, ◌<◌, here, there, All, All-map, find, nat_beq,
  Bool-cases, if◌then◌else◌,
}

module _ {A : Type 0} (id : A → ℕ) where
  -- `db.get(Model, entity_id)`
  unfoldable pub get_row : ℕ → List A → Option A
  get_row n rows = find (λ r. nat_beq (id r) n) rows

  -- a loaded object was changed: its row is written back
  unfoldable pub put_row : A → List A → List A
  put_row a [] = []
  put_row a (r ∷ rows) = (if nat_beq (id r) (id a) then a else r) ∷ put_row a rows

  -- the id of the next row
  unfoldable pub next_id : List A → ℕ
  next_id rows = suc (length rows)

  abbrev pub IsNumbered : List A → Type 0
  IsNumbered [] = Unit
  IsNumbered (r ∷ rows) = (id r ≡ suc (length rows)) × IsNumbered rows

  pub length-put_row : (a : A) (rows : List A) → length (put_row a rows) ≡ length rows
  unfolding put_row
  length-put_row a [] = refl
  length-put_row a (r ∷ rows) = ap suc (length-put_row a rows)

  pub put_row-IsNumbered : (a : A) (rows : List A) → IsNumbered rows → IsNumbered (put_row a rows)
  unfolding put_row
  put_row-IsNumbered a [] h = tt
  put_row-IsNumbered a (r ∷ rows) (e, h) =
      (ground (arith, length-put_row a rows), put_row-IsNumbered a rows h)

  pub id-le : (rows : List A) (n : ℕ) → IsNumbered rows → length rows ≤ n → All (λ r. id r ≤ n) rows
  id-le [] n h b = tt
  id-le (r ∷ rows) n (e, h) b = (omega arith, id-le rows n h (omega arith))

  put_row_absent :
      (a : A) (rows : List A) (n : ℕ) → All (λ r. id r ≤ n) rows → n < id a → put_row a rows ≡ rows
  unfolding put_row
  put_row_absent a [] n h b = refl
  put_row_absent a (r ∷ rows) n (le, h) b = ground (arith, put_row_absent a rows n h b)

  pub get_row-id : (n : ℕ) (rows : List A) (a : A) → get_row n rows ≡ some a → id a ≡ n
  unfolding get_row
  get_row-id n rows a h = (nat_beq_iff (id a) n).0 (find-some (λ r. nat_beq (id r) n) rows a h)

  pub get_row-Any :
      (n : ℕ) (rows : List A) (a : A) → get_row n rows ≡ some a → Any (λ r. r ≡ a) rows
  unfolding get_row
  get_row-Any n rows a h = find-Any (λ r. nat_beq (id r) n) rows a h

  pub get_row-put_row :
      (n : ℕ) (a : A) (rows : List A)
      → get_row n (put_row a rows)
        ≡ Option.map (λ r. if nat_beq (id r) (id a) then a else r) (get_row n rows)
  unfolding get_row put_row find
  get_row-put_row n a [] = refl
  get_row-put_row n a (r ∷ rows) = ground (arith, get_row-put_row n a rows)

  module _ (P : A → Type 0) where
    pub All-put_row : (a : A) (rows : List A) → P a → All P rows → All P (put_row a rows)
    unfolding put_row
    All-put_row a [] p h = tt
    All-put_row a (r ∷ rows) p (q, h) = ground (arith, All-put_row a rows p h)

    -- What holds of some row holds of some row still, if it holds of the row written whenever it
    -- did of the row that was there.
    pub Any-put_row :
        (a old : A) (rows : List A)
        → IsNumbered rows
        → get_row (id a) rows ≡ some old
        → (P old → P a)
        → Any P rows
        → Any P (put_row a rows)
    unfolding get_row put_row find
    Any-put_row a old [] num found keep h = elim h [ ]
    Any-put_row a old (r ∷ rows) (e, num) found keep (here p) =
        elim (Bool-cases (nat_beq (id r) (id a))) [
          | inl same ↦
              let is_old : r ≡ old = ground (arith, same, found) in
              here (rw same (keep (rw is_old at p)))
          | inr other ↦ here (rw other p)
        ]
    Any-put_row a old (r ∷ rows) (e, num) found keep (there h) =
        elim (Bool-cases (nat_beq (id r) (id a))) [
          | inl same ↦ there (
              rw
                (put_row_absent a rows (length rows) (id-le rows (length rows) num (omega arith))
                  (ground (arith, same)))
                h)
          | inr other ↦
              there (Any-put_row a old rows num (rw (other, if◌then◌else◌) at found) keep h)
        ]

  pub count-put_row :
      (p : A → Bool) (a : A) (rows : List A) → p a ≡ false → count p (put_row a rows) ≤ count p rows
  unfolding count put_row
  count-put_row p a [] h = omega arith
  count-put_row p a (r ∷ rows) h = ground (arith, count-put_row p a rows)

  Any-id-le :
      (rows : List A) (n : ℕ) (a : A) → All (λ r. id r ≤ n) rows → Any (λ r. r ≡ a) rows → id a ≤ n
  Any-id-le [] n a le h = elim h [ ]
  Any-id-le (r ∷ rows) n a (le, les) (here same) = rw (← same) le
  Any-id-le (r ∷ rows) n a (le, les) (there h) = Any-id-le rows n a les h

  -- In a numbered table two rows with one id are the same row.
  pub same_row :
      (a : A) (rows : List A)
      → IsNumbered rows
      → Any (λ r. r ≡ a) rows
      → All (λ r. id r ≡ id a → r ≡ a) rows
  same_row a [] num h = tt
  same_row a (r ∷ rows) (e, num) (here same) = (
    λ _. same,
    All-map (λ x le same_id. absurd (omega (arith, ap id same))) rows
        (id-le rows (length rows) num (omega arith)),
  )
  same_row a (r ∷ rows) (e, num) (there h) = (
    λ same_id. absurd (
        omega
          (arith, Any-id-le rows (length rows) a (id-le rows (length rows) num (omega arith)) h)),
    same_row a rows num h,
  )

  -- `UPDATE ... WHERE id = n`: the row with this id is changed.
  unfoldable pub update_row : ℕ → (A → A) → List A → List A
  update_row n f [] = []
  update_row n f (r ∷ rows) = (if nat_beq (id r) n then f r else r) ∷ update_row n f rows
