-- ===== src/Retention/Triple.antt =====
-- What holds behind a run of statements, from what holds before it: where the run goes on, and
-- where a fault breaks it off.
use goggles.Ingest.Session.{Database, Fault, Session}
use goggles.Ingest.Store.{Store}
use goggles.Retention.Autocommit.{
  Run, went_on, broke_off, Statements, pure, gets, ◌>>=◌, run_then, write, written, read, query,
}
use goggles.Base.{ℕ, ◌≡◌, refl, Bool, true, false, Option, none, some, if◌then◌else◌}

module _ ⦃db : Database⦄ where
  -- The database has the fault for some statement.
  abbrev pub Met : Fault → Type 0
  Met fault = (n : ℕ) × (db.fault n ≡ some fault)

  abbrev pub Ends : {A : Type 0} → (A → Store → Type 0) → (Store → Type 0) → Run A → Type 0
  Ends after broken (went_on a s) = after a s.store
  Ends after broken (broke_off fault s) = broken s.store × Met fault

  pub record Triple {A : Type 0} (before : Store → Type 0) (m : Statements A)
      (after : A → Store → Type 0) (broken : Store → Type 0) : Type 0 where
    pub run : (s : Session) → before s.store → Ends after broken (m s)

  module _ {A : Type 0} (before : Store → Type 0) (broken : Store → Type 0) where
    pub Triple-pure :
        (a : A) (after : A → Store → Type 0)
        → ((store : Store) → before store → after a store)
        → Triple before (pure a) after broken
    Triple-pure a after h = record { run = λ s p. h s.store p }

    pub Triple-bind :
        {B : Type 0} (m : Statements A) (f : A → Statements B) (between : A → Store → Type 0)
        (after : B → Store → Type 0)
        → Triple before m between broken
        → ((a : A) → Triple (between a) (f a) after broken)
        → Triple before (m >>= f) after broken
    Triple-bind m f between after tm tf = record { run = λ s p. go (m s) (tm.run s p) }
      where
        go : (r : Run A) → Ends between broken r → Ends after broken (run_then r f)
        go (went_on a s) p = (tf a).run s p
        go (broke_off fault s) p = p

  pub Triple-weaken :
      {A : Type 0} {before : Store → Type 0} {broken : Store → Type 0} {m : Statements A}
      {after later : A → Store → Type 0}
      → Triple before m after broken
      → ((a : A) (store : Store) → after a store → later a store)
      → Triple before m later broken
  Triple-weaken {A} {before} {broken} {m} {after} {later} t h = record {
    run = λ s p. go (m s) (t.run s p);
  }
    where
      go : (r : Run A) → Ends after broken r → Ends later broken r
      go (went_on a s) p = h a s.store p
      go (broke_off fault s) p = p

  pub Triple-if :
      {A : Type 0} (before : Store → Type 0) (broken : Store → Type 0) (b : Bool)
      (f g : Statements A) (after : A → Store → Type 0)
      → (b ≡ true → Triple before f after broken)
      → (b ≡ false → Triple before g after broken)
      → Triple before (if b then f else g) after broken
  Triple-if before broken true f g after tf tg = tf refl
  Triple-if before broken false f g after tf tg = tg refl

  pub Triple-write :
      (before : Store → Type 0) (broken : Store → Type 0) (f : Store → Store)
      (after : Store → Type 0)
      → ((store : Store) → before store → after (f store))
      → ((store : Store) → before store → broken store)
      → Triple before (write f) (λ _. after) broken
  unfolding write
  Triple-write before broken f after h k = record {
    run = λ s p. go s p (db.fault s.statements) refl;
  }
    where
      go :
          (s : Session)
          → before s.store
          → (o : Option Fault) → db.fault s.statements ≡ o
          → Ends (λ _. after) broken (written f o s)
      go s p none e = h s.store p
      go s p (some fault) e = (k s.store p, (s.statements, e))

  module _ (before : Store → Type 0) (broken : Store → Type 0)
      (k : (store : Store) → before store → broken store) where
    pub Triple-read : Triple before read (λ _. before) broken
    Triple-read = Triple-write before broken (λ store. store) before (λ store p. p) k

    -- What is read is read from the store at hand.
    pub Triple-query :
        {A : Type 0} (f : Store → A)
        → Triple before (query f) (λ a store. before store × (a ≡ f store)) broken
    Triple-query f =
        Triple-bind before broken read (λ _. gets f) (λ _. before) _ Triple-read
          (λ _. record { run = λ s p. (p, refl) })
