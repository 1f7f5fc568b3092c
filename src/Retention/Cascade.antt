-- ===== src/Retention/Cascade.antt =====
-- Deleting files with the cascade to their events keeps the store well-formed.
use goggles.Base.Dict.Entries.{IsDict}
use goggles.Ingest.Transaction.Archive.{archive}
use goggles.Base.Dict.{Dict}
use goggles.Retention.{delete_batch}
use goggles.Ingest.Transaction.Apart.{LineKey, Owned, NoRepeat, row_key}
use goggles.Ingest.Store.{EventRow, FileRow, Store}
use goggles.Base.{
  ℕ, String, ◌≡◌, refl, ap, ◌∙◌, inl, inr, Bool, false, not, ◌&&◌, ◌||◌, List, [], ◌∷◌, map, arith,
  Bool-cases, ◌==◌, select, All, contains, nat_eq, string_eq, pair_eq,
}
use goggles.Base.Dict
use goggles.Ingest.Tables.{file_is_valid}
use goggles.Ingest.Transaction.Sound.{IsWellFormed}

pub All-select :
    {A : Type 0} (P : A → Type 0) (p : A → Bool) (xs : List A) → All P xs → All P (select p xs)
All-select P p [] h = tt
All-select P p (x ∷ xs) h = elim (Bool-cases (p x)) [
  | inl held ↦ rw held (h.0, All-select P p xs h.1)
  | inr lost ↦ rw lost (All-select P p xs h.1)
]

has-select :
    (k : String) (p : FileRow → Bool) (files : List FileRow)
    → Dict.has k (archive files) ≡ false
    → Dict.has k (archive (select p files)) ≡ false
unfolding Dict.get
has-select k p [] h = refl
has-select k p (file ∷ files) h = ground (arith, h, has-select k p files)

archive-IsDict :
    (p : FileRow → Bool) (files : List FileRow)
    → IsDict (archive files)
    → IsDict (archive (select p files))
archive-IsDict p [] h = tt
archive-IsDict p (file ∷ files) h = elim (Bool-cases (p file)) [
  | inl held ↦ rw held (has-select file.file_sha256 p files h.0, archive-IsDict p files h.1)
  | inr lost ↦ rw lost (archive-IsDict p files h.1)
]

file_is_valid-outside :
    (id : ℕ) (ids : List ℕ) (files : List FileRow)
    → contains id ids ≡ false
    → file_is_valid id (select (λ (file : FileRow). not (contains file.id ids)) files)
      ≡ file_is_valid id files
file_is_valid-outside id ids [] h = refl
file_is_valid-outside id ids (file ∷ files) h = elim (Bool-cases (file.id == id)) [
  | inl same ↦
      let e : file.id ≡ id = (nat_eq.same_iff file.id id).0 same in
      let kept : contains file.id ids ≡ false = ap (λ n. contains n ids) e ∙ h in
      rw kept
        (ap (λ b. (file.id == id && file.is_valid) || b) (file_is_valid-outside id ids files h))
  | inr other ↦ ground (arith, other, file_is_valid-outside id ids files h)
]

Owned-select :
    (ids : List ℕ) (files : List FileRow) (events : List EventRow)
    → All (Owned files) events
    → All
        (Owned (select (λ (file : FileRow). not (contains file.id ids)) files))
        (select (λ (event : EventRow). not (contains event.audit_file_id ids)) events)
unfolding Owned
Owned-select ids files [] h = tt
Owned-select ids files (event ∷ events) h = elim (Bool-cases (contains event.audit_file_id ids)) [
  | inl gone ↦ rw gone (Owned-select ids files events h.1)
  | inr kept ↦ rw kept (
    file_is_valid-outside event.audit_file_id ids files kept ∙ h.0,
    Owned-select ids files events h.1,
  )
]

not_in_select :
    (k : LineKey) (p : EventRow → Bool) (events : List EventRow)
    → contains k (map row_key events) ≡ false
    → contains k (map row_key (select p events)) ≡ false
not_in_select k p [] h = refl
not_in_select k p (event ∷ events) h = elim (Bool-cases (p event)) [
  | inl held ↦ rw held (ground (arith, h, not_in_select k p events))
  | inr lost ↦ rw lost (not_in_select k p events (ground (arith, h)))
]

select-NoRepeat :
    (p : EventRow → Bool) (events : List EventRow)
    → NoRepeat (map row_key events)
    → NoRepeat (map row_key (select p events))
select-NoRepeat p [] h = tt
select-NoRepeat p (event ∷ events) h = elim (Bool-cases (p event)) [
  | inl held ↦ rw held (not_in_select (row_key event) p events h.0, select-NoRepeat p events h.1)
  | inr lost ↦ rw lost (select-NoRepeat p events h.1)
]

pub delete_batch-IsWellFormed :
    (ids : List ℕ) (store : Store) → IsWellFormed store → IsWellFormed (delete_batch ids store)
delete_batch-IsWellFormed ids store w = record {
  below = All-select _ (λ file. not (contains file.id ids)) store.files w.below;
  hashes = archive-IsDict (λ file. not (contains file.id ids)) store.files w.hashes;
  owned = Owned-select ids store.files store.events w.owned;
  apart = select-NoRepeat (λ event. not (contains event.audit_file_id ids)) store.events w.apart;
}
