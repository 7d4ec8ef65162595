-- ===== src/Db/Keeps.antt =====
-- Invariants of session actions: what holds of the tables at work and of the committed ones holds
-- after the action too, whether it returns or raises.
use seclab.Prelude.{◌≡◌, refl, Bool, true, false, Option, none, some, if◌then◌else◌}
use seclab.Prelude.Text.{Text}
use seclab.Security.Models.{Error, Result, ok, err}
use seclab.Db.{
  Store, Session, Exec, pure, raise, lift, resume, ◌>>=◌, gets, modify, now, commit, handle, or_404,
}

pub record Holds (Q : Store → Type 0) (s : Session) : Type 0 where
  pub work : Q s.work
  pub saved : Q s.saved

pub record Keeps {A : Type 0} (Q : Store → Type 0) (m : Exec A) : Type 0 where
  pub after : (s : Session) → Holds Q s → Holds Q (m s).0

module _ {Q : Store → Type 0} {A : Type 0} where
  pub Keeps-pure : (a : A) → Keeps Q (pure a)
  unfolding pure
  Keeps-pure a = record { after = λ s h. h }

  pub Keeps-raise : (e : Error) → Keeps Q (raise {A = A} e)
  unfolding raise
  Keeps-raise e = record { after = λ s h. h }

  pub Keeps-lift : (r : Result A) → Keeps Q (lift r)
  unfolding lift
  Keeps-lift r = record { after = λ s h. h }

  pub Keeps-gets : (f : Store → A) → Keeps Q (gets f)
  unfolding gets
  Keeps-gets f = record { after = λ s h. h }

  pub Keeps-or_404 : (o : Option A) (t : Text) → Keeps Q (or_404 o t)
  unfolding or_404
  Keeps-or_404 none t = record { after = λ s h. h }
  Keeps-or_404 (some a) t = record { after = λ s h. h }

  pub Keeps-if :
      (b : Bool) (m n : Exec A)
      → (b ≡ true → Keeps Q m)
      → (b ≡ false → Keeps Q n)
      → Keeps Q (if b then m else n)
  Keeps-if true m n km kn = km refl
  Keeps-if false m n km kn = kn refl

  pub Keeps-handle : (m : Exec A) → Keeps Q m → Keeps Q (handle m)
  unfolding handle
  Keeps-handle m k = record {
    after = λ s h. let kept = k.after s h in record { work = kept.saved; saved = kept.saved };
  }

module _ {Q : Store → Type 0} where
  pub Keeps-modify : (f : Store → Store) → ((t : Store) → Q t → Q (f t)) → Keeps Q (modify f)
  unfolding modify
  Keeps-modify f k = record { after = λ s h. record { work = k s.work h.work; saved = h.saved } }

  pub Keeps-now : Keeps Q now
  unfolding now
  Keeps-now = record { after = λ s h. record { work = h.work; saved = h.saved } }

  pub Keeps-commit : Keeps Q commit
  unfolding commit
  Keeps-commit = record { after = λ s h. record { work = h.work; saved = h.work } }

module _ {Q : Store → Type 0} {A B : Type 0} where
  Holds-resume :
      (f : A → Exec B) (p : Session × Result A)
      → ((a : A) → Keeps Q (f a))
      → Holds Q p.0
      → Holds Q (resume p f).0
  Holds-resume f (s, ok a) k h = (k a).after s h
  Holds-resume f (s, err e) k h = h

  pub Keeps-bind :
      (m : Exec A) (f : A → Exec B) → Keeps Q m → ((a : A) → Keeps Q (f a)) → Keeps Q (m >>= f)
  unfolding ◌>>=◌
  Keeps-bind m f km kf = record { after = λ s h. Holds-resume f (m s) kf (km.after s h) }

  pub Keeps-lift-bind :
      (r : Result A) (f : A → Exec B)
      → ((a : A) → r ≡ ok a → Keeps Q (f a))
      → Keeps Q (lift r >>= f)
  unfolding ◌>>=◌
  Keeps-lift-bind (ok a) f k = k a refl
  Keeps-lift-bind (err e) f k = record { after = λ s h. h }

  Holds-resume_at :
      (f : A → Exec B) (p : Session × Result A)
      → Holds Q p.0
      → ((a : A) → p.1 ≡ ok a → Holds Q (f a p.0).0)
      → Holds Q (resume p f).0
  Holds-resume_at f (s, ok a) h k = k a refl
  Holds-resume_at f (s, err e) h k = h

  -- A chain at one session: the rest may use how the first step went.
  pub Holds-bind :
      (m : Exec A) (f : A → Exec B) (s : Session)
      → Holds Q (m s).0
      → ((a : A) → (m s).1 ≡ ok a → Holds Q (f a (m s).0).0)
      → Holds Q ((m >>= f) s).0
  unfolding ◌>>=◌
  Holds-bind m f s h k = Holds-resume_at f (m s) h k

  -- What is read off the tables at work may be used of them.
  pub Keeps-gets-bind :
      (g : Store → A) (f : A → Exec B)
      → ((s : Session) → Holds Q s → Holds Q (f (g s.work) s).0)
      → Keeps Q (gets g >>= f)
  unfolding ◌>>=◌ gets
  Keeps-gets-bind g f k = record { after = k }

pub ruleset keeps_rules = (
  Keeps-pure, Keeps-raise, Keeps-lift, Keeps-gets, Keeps-or_404, Keeps-if, Keeps-now, Keeps-commit,
  Keeps-lift-bind, Keeps-bind,
)
