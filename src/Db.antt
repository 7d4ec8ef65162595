-- ===== src/Db.antt =====
-- packages/seclab-core/src/seclab/core/db.py: the database, and the session of one request.
-- A session works on the tables and makes its work permanent by `commit`; `get_db` closes it at
-- the end of the request, and what was not committed is lost. Every write of the program is
-- flushed before the program next reads the table, so flushing is not modelled. Requests run one
-- after another. Rows stand newest first, and a new row's id is one above the newest one's: no
-- table of the approval workflow is ever purged.
pub mod Rows
pub mod Repository
pub mod Updates
pub mod Keeps
pub mod Runs
use seclab.Prelude.{ℕ, suc, ◌+◌, Bool, Option, none, some, List, [], ◌∷◌, length}
use seclab.Prelude.Text.{Text}
use seclab.Security.Models.{
  Error, Result, ok, err, http_error, User, AuditLog, EvidenceArtifact, ApprovalRequest,
}
use seclab.Monitor.{MonitorMatch}
use seclab.Recon.Models.{Program, Target, Hypothesis, Execution, Finding}

pub record Store : Type 0 where
  pub users : List User
  pub audit : List AuditLog
  pub evidence : List EvidenceArtifact
  pub approvals : List ApprovalRequest
  pub programs : List Program
  pub targets : List Target
  pub hypotheses : List Hypothesis
  pub executions : List Execution
  pub findings : List Finding
  pub matches : List MonitorMatch

-- `clock n` is the answer of the n-th call of `datetime.now(UTC)`, in seconds.
pub record Session : Type 0 where
  pub work : Store
  pub saved : Store
  pub clock : ℕ → ℕ
  pub ticks : ℕ

-- What a service method does: what was written before an exception stays in the session.
abbrev pub Exec {ℓ} : Type ℓ → Type ℓ
Exec A = Session → Session × Result A

module _ {ℓ} {A : Type ℓ} where
  unfoldable pub pure : A → Exec A
  pure a s = (s, ok a)

  unfoldable pub raise : Error → Exec A
  raise e s = (s, err e)

  unfoldable pub lift : Result A → Exec A
  lift r s = (s, r)

abbrev pub resume {ℓ κ} :
    {A : Type ℓ} {B : Type κ}
    → Session × Result A
    → (A → Session → Session × Result B)
    → Session × Result B
resume (s, ok a) f = f a s
resume (s, err e) f = (s, err e)

infixl 5 ◌>>=◌ ◌>>◌
unfoldable pub ◌>>=◌ {ℓ κ} :
    {A : Type ℓ} {B : Type κ}
    → (Session → Session × Result A)
    → (A → Session → Session × Result B)
    → Session
    → Session × Result B
unfolding pure raise lift
◌>>=◌ m f s = resume (m s) f

abbrev pub ◌>>◌ {ℓ} : {B : Type ℓ} → Exec (Unit {0}) → Exec B → Exec B
m >> n = m >>= λ _. n

-- a query
unfoldable pub gets {ℓ} : {A : Type ℓ} → (Store → A) → Exec A
gets f s = (s, ok (f s.work))

unfoldable pub modify : (Store → Store) → Exec (Unit {0})
modify f s = (record s { work = f s.work }, ok tt)

unfoldable pub now : Exec ℕ
now s = (record s { ticks = s.ticks + 1 }, ok (s.clock s.ticks))

unfoldable pub commit : Exec (Unit {0})
commit s = (record s { saved = s.work }, ok tt)

-- One request: the session is closed at its end, whether the handler returned or raised.
unfoldable pub handle {ℓ} : {A : Type ℓ} → Exec A → Exec A
handle m s = let (s', r) = m s in (record s' { work = s'.saved }, r)

-- The row that a query must find, or 404 with its label.
unfoldable pub or_404 {ℓ} : {A : Type ℓ} → Option A → Text → Exec A
unfolding pure raise
or_404 none detail = raise (http_error 404 detail)
or_404 (some row) detail = pure row
