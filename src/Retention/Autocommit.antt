-- ===== src/Retention/Autocommit.antt =====
-- Statements in autocommit, as the pruning command runs them: each is its own transaction, so a
-- fault ends the run and leaves what the statements before it have done.
use goggles.Ingest.Session.{Database, Fault, Session}
use goggles.Ingest.Store.{Store}
use goggles.Base.{suc, Option, none, some}

pub data Run (A : Type 0) : Type 0 where
  went_on : A → Session → Run A
  broke_off : Fault → Session → Run A

abbrev pub Statements : Type 0 → Type 0
Statements A = Session → Run A

-- The session that a run leaves, however it ends.
abbrev pub session_of : {A : Type 0} → Run A → Session
session_of (went_on a s) = s
session_of (broke_off fault s) = s

module _ {A : Type 0} where
  abbrev pub pure : A → Statements A
  pure a s = went_on a s

  abbrev pub gets : (Store → A) → Statements A
  gets f s = went_on (f s.store) s

abbrev pub run_then : {A B : Type 0} → Run A → (A → Statements B) → Run B
run_then (went_on a s) f = f a s
run_then (broke_off fault s) f = broke_off fault s

infixl 5 ◌>>=◌ ◌>>◌
abbrev pub ◌>>=◌ : {A B : Type 0} → Statements A → (A → Statements B) → Statements B
◌>>=◌ m f s = run_then (m s) f

abbrev pub ◌>>◌ : {B : Type 0} → Statements (Unit {0}) → Statements B → Statements B
m >> k = m >>= λ _. k

module _ ⦃db : Database⦄ where
  abbrev pub written : (Store → Store) → Option Fault → Statements (Unit {0})
  written f none s = went_on tt (record { store = f s.store; statements = suc s.statements })
  written f (some fault) s = broke_off fault s

  -- One statement that writes, unless the database has a fault for it.
  unfoldable pub write : (Store → Store) → Statements (Unit {0})
  write f s = written f (db.fault s.statements) s

  -- One statement that leaves the tables as they are.
  abbrev pub read : Statements (Unit {0})
  read = write (λ store. store)

  abbrev pub query : {A : Type 0} → (Store → A) → Statements A
  query f = read >> gets f
