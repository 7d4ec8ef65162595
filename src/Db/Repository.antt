-- ===== src/Db/Repository.antt =====
-- The tables that hold one result per row, under a text as primary key: `db.get(Run, key)`, then
-- an update of the row that was loaded, or a new one. Every module that keeps its results has
-- one (db.py of packages/modules/attack_surface, phantom, threatlens, cve_watch and
-- osint_breach).
use mathlib.Core.Option
use seclab.Prelude.{
  ◌≡◌, refl, false, inl, inr, Option, none, some, List, [], ◌∷◌, arith, find, Bool-cases,
  if◌then◌else◌, ◌==◌,
}
use seclab.Prelude.Text.{Text, text_beq_iff, text_beq_refl, text_eq}

module _ {A : Type 0} (key : A → Text) where
  unfoldable pub get_by : Text → List A → Option A
  get_by k rows = find (λ r. key r == k) rows

  unfoldable pub update_by : Text → (A → A) → List A → List A
  update_by k update [] = []
  update_by k update (r ∷ rows) = (if key r == k then update r else r) ∷ update_by k update rows

  -- `existing = db.get(...)`, and the two branches of `save`
  abbrev pub save_on : Option A → Text → (A → A) → A → List A → List A
  save_on none k update added rows = added ∷ rows
  save_on (some existing) k update added rows = update_by k update rows

  unfoldable pub save_by : Text → (A → A) → A → List A → List A
  save_by k update added rows = save_on (get_by k rows) k update added rows

  module _ (k : Text) (update : A → A) (keeps : (r : A) → key (update r) ≡ key r) where
    get_by-update_by-same :
        (rows : List A) (a : A)
        → get_by k rows ≡ some a
        → get_by k (update_by k update rows) ≡ some (update a)
    unfolding get_by update_by find
    get_by-update_by-same [] a h = absurd (ground (arith, h))
    get_by-update_by-same (r ∷ rows) a h = elim (Bool-cases (key r == k)) [
      | inl e ↦ rw (e, keeps r, e) (ground (arith, e, h))
      | inr e ↦ rw (e, e) (get_by-update_by-same rows a (rw (e, if◌then◌else◌) at h))
    ]

    get_by-update_by-other :
        (j : Text) (rows : List A)
        → (k == j) ≡ false
        → get_by j (update_by k update rows) ≡ get_by j rows
    unfolding get_by update_by find
    get_by-update_by-other j [] h = refl
    get_by-update_by-other j (r ∷ rows) h = elim (Bool-cases (key r == k)) [
      | inl e ↦
          let same : key r ≡ k = (text_beq_iff (key r) k).0 e in
          rw (e, keeps r, same, h) (get_by-update_by-other j rows h)
      | inr e ↦ rw (e, get_by-update_by-other j rows h) refl
    ]

  module _ {V : Type 0} (value : A → V) (k : Text) (update : A → A) (added : A) (v : V)
      (keeps : (r : A) → key (update r) ≡ key r) (is_k : key added ≡ k)
      (written : (r : A) → value (update r) ≡ v) (fresh : value added ≡ v) where
    save_on-same :
        (o : Option A) (rows : List A)
        → get_by k rows ≡ o
        → Option.map value (get_by k (save_on o k update added rows)) ≡ some v
    save_on-same none rows e =
        unfold get_by in unfold find in rw (is_k, text_beq_refl k, fresh) refl
    save_on-same (some a) rows e =
        rw (get_by-update_by-same k update keeps rows a e, written a) refl

    save_on-other :
        (o : Option A) (j : Text) (rows : List A)
        → (k == j) ≡ false
        → get_by j (save_on o k update added rows) ≡ get_by j rows
    save_on-other none j rows h = unfold get_by in unfold find in rw (is_k, h) refl
    save_on-other (some a) j rows h = get_by-update_by-other k update keeps j rows h

    -- What the rows hold after a result was saved that both branches write the same of: the
    -- result under its key, and what they held before under every other.
    pub get_by-save_by :
        (j : Text) (rows : List A)
        → Option.map value (get_by j (save_by k update added rows))
          ≡ (if k == j then some v else Option.map value (get_by j rows))
    unfolding save_by
    get_by-save_by j rows = elim (Bool-cases (k == j)) [
      | inl e ↦
          rw (← (text_beq_iff k j).0 e, text_beq_refl k) (save_on-same (get_by k rows) rows refl)
      | inr e ↦ rw (e, save_on-other (get_by k rows) j rows e) refl
    ]
