-- ===== src/Db/Runs.antt =====
-- Running a chain of session actions step by step.
use seclab.Prelude.{◌≡◌, refl, ap, arith}
use seclab.Security.Models.{Error, Result, ok, err}
use seclab.Db.{Session, Exec, resume, ◌>>=◌}

module _ {A B : Type 0} where
  resume-ok : (p : Session × Result A) (f : A → Exec B) (a : A) → p.1 ≡ ok a → resume p f ≡ f a p.0
  resume-ok (s, ok b) f a h = let same : b ≡ a = ground (arith, h) in ap (λ (c : A). f c s) same
  resume-ok (s, err e) f a h = absurd (ground (arith, h))

  resume-err :
      (p : Session × Result A) (f : A → Exec B) (e : Error)
      → p.1 ≡ err e
      → resume p f ≡ (p.0, err e)
  resume-err (s, ok b) f e h = absurd (ground (arith, h))
  resume-err (s, err e') f e h = let same : e' ≡ e = ground (arith, h) in rw same refl

  -- A step that returns hands on its value, in the session that it leaves.
  pub bind-ok :
      (m : Exec A) (f : A → Exec B) (s : Session) (a : A)
      → (m s).1 ≡ ok a
      → (m >>= f) s ≡ f a (m s).0
  unfolding ◌>>=◌
  bind-ok m f s a h = resume-ok (m s) f a h

  -- A step that raises ends the chain.
  pub bind-err :
      (m : Exec A) (f : A → Exec B) (s : Session) (e : Error)
      → (m s).1 ≡ err e
      → (m >>= f) s ≡ ((m s).0, err e)
  unfolding ◌>>=◌
  bind-err m f s e h = resume-err (m s) f e h
