-- ===== src/Ingest/Session.antt =====
-- The statements of a database transaction: each may fail, and a failure rolls all of them back.
pub mod Post
use goggles.Ingest.Store.{Store}
use goggles.Base.{ℕ, suc, String, Bool, Option, none, some, string_eq}

-- What ends a transaction: IngestionBusy, a lock that is taken (sqlstate 55P03), an IntegrityError,
-- and any other exception, by the name of its class.
pub data Fault : Type 0 where
  busy : Fault
  locked : Fault
  integrity : Fault
  failed : String → Fault

-- What the database and its other clients do: the fault of the transaction's n-th statement, the
-- locks that a try takes, the tables as they are found after a rollback, whether a refusal can be
-- recorded, the time, and its case-insensitive test for a part of a text.
pub record Database : Type 0 where
  pub is_postgresql : Bool
  pub pg_version : ℕ
  pub fault : ℕ → Option Fault
  pub lock_free : String → Bool
  pub others : Store → Store
  pub can_record : Bool
  pub now : ℕ
  pub icontains : String → String → Bool

pub record Session : Type 0 where
  pub store : Store
  pub statements : ℕ

pub data Attempt (A : Type 0) : Type 0 where
  done : A → Session → Attempt A
  raised : Fault → Attempt A

abbrev pub Transaction : Type 0 → Type 0
Transaction A = Session → Attempt A

module _ {A : Type 0} where
  abbrev pub pure : A → Transaction A
  pure a s = done a s

  abbrev pub raise : Fault → Transaction A
  raise fault s = raised fault

  abbrev pub gets : (Store → A) → Transaction A
  gets f s = done (f s.store) s

abbrev pub run_then : {A B : Type 0} → Attempt A → (A → Transaction B) → Attempt B
run_then (done a s) f = f a s
run_then (raised fault) f = raised fault

infixl 5 ◌>>=◌ ◌>>◌
abbrev pub ◌>>=◌ : {A B : Type 0} → Transaction A → (A → Transaction B) → Transaction B
◌>>=◌ m f s = run_then (m s) f

abbrev pub ◌>>◌ : {B : Type 0} → Transaction (Unit {0}) → Transaction B → Transaction B
m >> k = m >>= λ _. k

abbrev pub modify : (Store → Store) → Transaction (Unit {0})
modify f s = done tt (record s { store = f s.store })

module _ ⦃db : Database⦄ where
  abbrev pub meets : Option Fault → Transaction (Unit {0})
  meets none s = done tt (record s { statements = suc s.statements })
  meets (some fault) s = raised fault

  -- One statement: the fault that the database has for it, if any.
  unfoldable pub statement : Transaction (Unit {0})
  statement s = meets (db.fault s.statements) s
