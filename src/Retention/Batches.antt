-- ===== src/Retention/Batches.antt =====
-- The batches of delete_files are one deletion.
use goggles.Ingest.Store.{EventRow, FileRow, Store}
use goggles.Base.{
  ℕ, zero, suc, ◌+◌, ◌*◌, ◌≤◌, ◌<◌, ◌≡◌, refl, sym, ap, ◌∙◌, inl, inr, true, not, ◌||◌, Option,
  none, some, List, [], ◌∷◌, arith, Bool-cases, length, is_empty, take, drop, select, contains,
  nat_eq, string_eq,
}
use goggles.Ingest.Session.{Database, Session, Fault}
use goggles.Retention.Autocommit.{Run, went_on, broke_off, run_then, written, write}
use goggles.Retention.{delete_batch, delete_batches, delete_files, delete_batch_size}

contains-split :
    (n k : ℕ) (ids : List ℕ) → contains n ids ≡ (contains n (take k ids) || contains n (drop k ids))
contains-split n zero ids = refl
contains-split n (suc k) [] = refl
contains-split n (suc k) (id ∷ ids) = ground (arith, contains-split n k ids)

-- The rows whose number is not among the ids.
abbrev pub outside : {A : Type 0} → (A → ℕ) → List ℕ → List A → List A
outside f ids rows = select (λ row. not (contains (f row) ids)) rows

outside-split :
    {A : Type 0} (f : A → ℕ) (k : ℕ) (ids : List ℕ) (rows : List A)
    → outside f (drop k ids) (outside f (take k ids) rows) ≡ outside f ids rows
outside-split f k ids [] = refl
outside-split f k ids (row ∷ rows) = elim (Bool-cases (contains (f row) (take k ids))) [
  | inl early ↦ rw (early, contains-split (f row) k ids, early) (outside-split f k ids rows)
  | inr later ↦ elim (Bool-cases (contains (f row) (drop k ids))) [
    | inl late ↦
        rw (later, late, contains-split (f row) k ids, later, late) (outside-split f k ids rows)
    | inr never ↦
        rw (later, never, contains-split (f row) k ids, later, never)
          (ap (λ r. row ∷ r) (outside-split f k ids rows))
  ]
]

outside-nil : {A : Type 0} (f : A → ℕ) (rows : List A) → outside f [] rows ≡ rows
outside-nil f [] = refl
outside-nil f (row ∷ rows) = ap (λ r. row ∷ r) (outside-nil f rows)

abbrev with_rows : Store → List FileRow → List EventRow → Store
with_rows store files events = record store { files = files; events = events }

abbrev file_id : FileRow → ℕ
file_id file = file.id

abbrev event_file_id : EventRow → ℕ
event_file_id event = event.audit_file_id

delete_batch-split :
    (k : ℕ) (ids : List ℕ) (store : Store)
    → delete_batch (drop k ids) (delete_batch (take k ids) store) ≡ delete_batch ids store
delete_batch-split k ids store =
    ap
      (λ files.
        with_rows store files
          (outside event_file_id (drop k ids) (outside event_file_id (take k ids) store.events)))
      (outside-split file_id k ids store.files)
    ∙ ap (with_rows store (outside file_id ids store.files))
        (outside-split event_file_id k ids store.events)

length-drop-le :
    (k fuel : ℕ) (ids : List ℕ) → length ids ≤ suc fuel → length (drop (suc k) ids) ≤ fuel
length-drop-le k fuel [] h = omega arith
length-drop-le zero fuel (id ∷ ids) h = omega (arith, h)
length-drop-le (suc k) zero (id ∷ []) h = omega arith
length-drop-le (suc k) zero (id ∷ other ∷ ids) h = absurd (omega (arith, h))
length-drop-le (suc k) (suc fuel) (id ∷ ids) h =
    omega (arith, length-drop-le k fuel ids (omega (arith, h)))

delete_batch-nil : (store : Store) → store ≡ delete_batch [] store
delete_batch-nil store = sym (
    ap (λ files. with_rows store files (outside event_file_id [] store.events))
      (outside-nil file_id store.files)
    ∙ ap (with_rows store store.files) (outside-nil event_file_id store.events))

pub delete_batch-empty :
    (ids : List ℕ) (store : Store) → is_empty ids ≡ true → store ≡ delete_batch ids store
delete_batch-empty [] store e = delete_batch-nil store
delete_batch-empty (id ∷ ids) store e = absurd (ground (arith, e))

take-zero : (ids : List ℕ) → take 0 ids ≡ []
take-zero [] = refl
take-zero (id ∷ ids) = refl

take-take : (k n : ℕ) (ids : List ℕ) → k ≤ n → take k (take n ids) ≡ take k ids
take-take zero n ids h = take-zero (take n ids) ∙ sym (take-zero ids)
take-take (suc k) zero ids h = absurd (omega (arith, h))
take-take (suc k) (suc n) [] h = refl
take-take (suc k) (suc n) (id ∷ ids) h = ap (λ r. id ∷ r) (take-take k n ids (omega (arith, h)))

drop-take : (k m n : ℕ) (ids : List ℕ) → n ≡ k + m → drop k (take n ids) ≡ take m (drop k ids)
drop-take zero m n ids e = ap (λ i. take i ids) (omega (arith, e))
drop-take (suc k) m zero ids e = absurd (omega (arith, e))
drop-take (suc k) zero (suc n) [] e = refl
drop-take (suc k) (suc m) (suc n) [] e = refl
drop-take (suc k) m (suc n) (id ∷ ids) e = drop-take k m n ids (omega (arith, e))

-- Two deletions in a row, by the first ids and the next.
delete_batch-take :
    (k m n : ℕ) (ids : List ℕ) (store : Store)
    → n ≡ k + m
    → delete_batch (take m (drop k ids)) (delete_batch (take k ids) store)
      ≡ delete_batch (take n ids) store
delete_batch-take k m n ids store e =
    ap (λ late. delete_batch late (delete_batch (take k ids) store)) (sym (drop-take k m n ids e))
    ∙ ap (λ early. delete_batch (drop k (take n ids)) (delete_batch early store))
        (sym (take-take k n ids (omega (arith, e))))
    ∙ delete_batch-split k (take n ids) store

length-drop-less : (k m n : ℕ) (ids : List ℕ) → n ≡ k + m → m < length (drop k ids) → n < length ids
length-drop-less zero m n ids e h = omega (arith, e, h)
length-drop-less (suc k) m n [] e h = absurd (omega (arith, h))
length-drop-less (suc k) m zero (id ∷ ids) e h = omega arith
length-drop-less (suc k) m (suc n) (id ∷ ids) e h =
    omega (arith, length-drop-less k m n ids (omega (arith, e)) h)

one_more : (k : ℕ) → suc k * delete_batch_size ≡ delete_batch_size + k * delete_batch_size
one_more k = omega arith

module _ ⦃db : Database⦄ where
  -- All ids are deleted; or the database has a fault for a statement, and those of the batches
  -- before it are deleted, which are not all.
  abbrev pub Deleted : List ℕ → Store → Run (Unit {0}) → Type 0
  Deleted ids before (went_on a s) = s.store ≡ delete_batch ids before
  Deleted ids before (broke_off fault s) =
      (db.fault s.statements ≡ some fault)
      × ((k : ℕ) × ((k * delete_batch_size < length ids)
            × (s.store ≡ delete_batch (take (k * delete_batch_size) ids) before)))

  Deleted-later :
      (ids : List ℕ) (store : Store) (r : Run (Unit {0}))
      → Deleted (drop delete_batch_size ids) (delete_batch (take delete_batch_size ids) store) r
      → Deleted ids store r
  Deleted-later ids store (went_on a s) h = h ∙ delete_batch-split delete_batch_size ids store
  Deleted-later ids store (broke_off fault s) (met, (k, (less, e))) = (
    met,
    (
      suc k,
      (
        length-drop-less delete_batch_size (k * delete_batch_size) _ ids (one_more k) less,
        e ∙ delete_batch-take delete_batch_size (k * delete_batch_size) _ ids store (one_more k),
      ),
    ),
  )

  delete_batches_lem :
      (fuel : ℕ) (ids : List ℕ) (s : Session)
      → length ids ≤ fuel
      → Deleted ids s.store (delete_batches fuel ids s)
  unfolding delete_batches write
  delete_batches_lem zero [] s h = delete_batch-nil s.store
  delete_batches_lem zero (id ∷ ids) s h = absurd (omega (arith, h))
  delete_batches_lem (suc fuel) [] s h = delete_batch-nil s.store
  delete_batches_lem (suc fuel) (id ∷ ids) s h = go (db.fault s.statements) refl (λ t.
      delete_batches_lem fuel (drop delete_batch_size (id ∷ ids)) t
        (length-drop-le 199 fuel (id ∷ ids) h))
    where
      go :
          (o : Option Fault)
          → db.fault s.statements ≡ o
          → ((t : Session)
              → Deleted
                  (drop delete_batch_size (id ∷ ids))
                  t.store
                  (delete_batches fuel (drop delete_batch_size (id ∷ ids)) t))
          → Deleted (id ∷ ids) s.store (
              run_then
                (written (delete_batch (take delete_batch_size (id ∷ ids))) o s)
                (λ _. delete_batches fuel (drop delete_batch_size (id ∷ ids))))
      go none e later = Deleted-later (id ∷ ids) s.store _ (later _)
      go (some fault) e later = (e, (0, (omega arith, delete_batch-nil s.store)))

  -- Deleting files in batches, each a statement, deletes exactly the files of those ids and their
  -- events, and leaves all other rows in their order, unless the database has a fault for one of
  -- the statements: then the files and events of the batches before it are deleted, not all.
  pub delete_files_lem : (ids : List ℕ) (s : Session) → Deleted ids s.store (delete_files ids s)
  unfolding delete_files
  delete_files_lem ids s = delete_batches_lem (length ids) ids s (omega arith)
