-- ===== src/Core/Retention.antt =====
-- packages/seclab-core/src/seclab/core/retention.py: rows that are older than a number of days are
-- deleted. Times are seconds since the epoch.
use seclab.Prelude.{
  ℕ, suc, ◌+◌, ◌-◌, ◌*◌, ◌≡◌, ◌≤◌, ◌<◌, refl, Bool, not, List, [], ◌∷◌, arith, length, ltb, select,
  Bool-cases, inl, inr,
}

-- The rows of one table, at work and committed.
pub record Table (A : Type 0) : Type 0 where
  pub work : List A
  pub saved : List A

module _ {A : Type 0} (timestamp_field : A → ℕ) where
  unfoldable pub cutoff : ℕ → ℕ → ℕ
  cutoff now days = now - days * 86400

  -- `column < cutoff`
  unfoldable pub is_old : ℕ → ℕ → A → Bool
  unfolding cutoff
  is_old now days row = ltb (timestamp_field row) (cutoff now days)

  -- `purge_older_than`, and the number of rows that it deleted
  unfoldable pub purge_older_than : ℕ → ℕ → Table A → Table A × ℕ
  unfolding is_old
  purge_older_than now days table =
      let rows = select (is_old now days) table.work in
      let rest = select (λ r. not (is_old now days r)) table.work in
      (record { work = rest; saved = rest }, length rows)

  -- What a purge at `now` makes of a list of rows, and how many it deletes: one that is older
  -- than the days is deleted, and every other one stays in its place.
  pub data IsPurge (now days : ℕ) : List A → List A → ℕ → Type 0 where
    nothing : IsPurge now days [] [] 0
    deleted :
        (r : A) {rows rest : List A} {n : ℕ}
        → timestamp_field r + days * (24 * 60 * 60) < now
        → IsPurge now days rows rest n
        → IsPurge now days (r ∷ rows) rest (suc n)
    kept :
        (r : A) {rows rest : List A} {n : ℕ}
        → now ≤ timestamp_field r + days * (24 * 60 * 60)
        → IsPurge now days rows rest n
        → IsPurge now days (r ∷ rows) (r ∷ rest) n

  pub record IsPurged (now days : ℕ) (before : Table A) (outcome : Table A × ℕ) : Type 0 where
    pub rows : IsPurge now days before.work outcome.0.work outcome.1
    pub committed : outcome.0.saved ≡ outcome.0.work

  is_old-IsPurge :
      (now days : ℕ) (rows : List A)
      → IsPurge now days rows
          (select (λ r. not (is_old now days r)) rows)
          (length (select (is_old now days) rows))
  unfolding select
  is_old-IsPurge now days [] = nothing
  is_old-IsPurge now days (r ∷ rows) = elim (Bool-cases (is_old now days r)) [
    | inl e ↦ rw e (deleted r (unfold is_old in ground (arith, e)) (is_old-IsPurge now days rows))
    | inr e ↦ rw e (kept r (unfold is_old in ground (arith, e)) (is_old-IsPurge now days rows))
  ]

  -- A purge deletes exactly the rows whose time stamp lies more than the days, of 24 hours, before
  -- now, whatever table and column it is called for; the others stay, in their order and as often
  -- as they were there, the result is committed, and the number that is returned is how many rows
  -- were deleted.
  pub purge_older_than-IsPurged :
      (now days : ℕ) (table : Table A) → IsPurged now days table (purge_older_than now days table)
  unfolding purge_older_than
  purge_older_than-IsPurged now days table = record {
    rows = is_old-IsPurge now days table.work;
    committed = refl;
  }
