-- ===== src/Retention/Window.antt =====
-- The rows of the window: what the deletion of the stale rows leaves is fresh.
use goggles.Ingest.Store.{FileRow, RejectionRow, Store}
use goggles.Retention.{delete_batch, stale_file_ids, stale_rejection_count, delete_rejections}
use goggles.Base.{
  ℕ, ◌≤◌, ◌≡◌, refl, inl, inr, Bool, true, false, not, ◌&&◌, List, [], ◌∷◌, map, arith, ltb, leb,
  if◌then◌else◌, Bool-cases, ◌==◌, length, is_empty, select, All, All-map, contains, nat_eq,
  string_eq,
}

-- No file and no rejection is older than the time.
pub record IsFresh (cutoff : ℕ) (store : Store) : Type 0 where
  pub files : All (λ (file : FileRow). cutoff ≤ file.created_at) store.files
  pub rejections : All (λ (row : RejectionRow). cutoff ≤ row.created_at) store.rejections

-- A file is not stale, or its id is listed.
abbrev Listed : ℕ → List ℕ → FileRow → Type 0
Listed cutoff ids file = ltb file.created_at cutoff ≡ true → contains file.id ids ≡ true

listed_lem :
    (cutoff : ℕ) (files : List FileRow)
    → All
        (Listed cutoff
          (map (λ (file : FileRow). file.id) (select (λ file. ltb file.created_at cutoff) files)))
        files
listed_lem cutoff [] = tt
listed_lem cutoff (file ∷ files) = go (ltb file.created_at cutoff) refl (listed_lem cutoff files)
  where
    go :
        (b : Bool)
        → ltb file.created_at cutoff ≡ b
        → All
            (Listed cutoff
              (map (λ (row : FileRow). row.id) (select (λ row. ltb row.created_at cutoff) files)))
            files
        → (let rest = select (λ (row : FileRow). ltb row.created_at cutoff) files in
            let ids = map (λ (row : FileRow). row.id) (if b then file ∷ rest else rest) in
            Listed cutoff ids file × All (Listed cutoff ids) files)
    go true e h = (
      λ _. ground (arith, nat_eq.same_iff file.id file.id),
      All-map _ _ files (λ other k p. ground (arith, k p)) h,
    )
    go false e h = ((λ p. absurd (ground (arith, e, p))), h)

outside-fresh :
    (cutoff : ℕ) (ids : List ℕ) (files : List FileRow)
    → All (Listed cutoff ids) files
    → All
        (λ (file : FileRow). cutoff ≤ file.created_at)
        (select (λ (file : FileRow). not (contains file.id ids)) files)
outside-fresh cutoff ids [] h = tt
outside-fresh cutoff ids (file ∷ files) h = elim (Bool-cases (contains file.id ids)) [
  | inl gone ↦ rw gone (outside-fresh cutoff ids files h.1)
  | inr kept ↦ rw kept (
    elim (Bool-cases (ltb file.created_at cutoff)) [
      | inl stale ↦ absurd (ground (arith, h.0 stale, kept))
      | inr fresh ↦ ground (arith, fresh)
    ],
    outside-fresh cutoff ids files h.1,
  )
]

rejections-fresh :
    (cutoff : ℕ) (rows : List RejectionRow)
    → All
        (λ (row : RejectionRow). cutoff ≤ row.created_at)
        (select (λ row. leb cutoff row.created_at) rows)
rejections-fresh cutoff [] = tt
rejections-fresh cutoff (row ∷ rows) = elim (Bool-cases (leb cutoff row.created_at)) [
  | inl fresh ↦ rw fresh (ground (arith, fresh), rejections-fresh cutoff rows)
  | inr stale ↦ rw stale (rejections-fresh cutoff rows)
]

none_stale_files :
    (cutoff : ℕ) (files : List FileRow)
    → is_empty
        (map (λ (file : FileRow). file.id) (select (λ file. ltb file.created_at cutoff) files))
      ≡ true
    → All (λ (file : FileRow). cutoff ≤ file.created_at) files
none_stale_files cutoff [] h = tt
none_stale_files cutoff (file ∷ files) h = elim (Bool-cases (ltb file.created_at cutoff)) [
  | inl stale ↦ absurd (ground (arith, h, stale))
  | inr fresh ↦ (ground (arith, fresh), none_stale_files cutoff files (ground (arith, h, fresh)))
]

none_stale_rejections :
    (cutoff : ℕ) (rows : List RejectionRow)
    → length (select (λ (row : RejectionRow). ltb row.created_at cutoff) rows) ≡ 0
    → All (λ (row : RejectionRow). cutoff ≤ row.created_at) rows
none_stale_rejections cutoff [] h = tt
none_stale_rejections cutoff (row ∷ rows) h = elim (Bool-cases (ltb row.created_at cutoff)) [
  | inl stale ↦ absurd (ground (arith, h, stale))
  | inr fresh ↦
      (ground (arith, fresh), none_stale_rejections cutoff rows (ground (arith, h, fresh)))
]

pub deleted-IsFresh :
    (cutoff : ℕ) (store : Store)
    → IsFresh cutoff (delete_batch (stale_file_ids cutoff store) (delete_rejections cutoff store))
deleted-IsFresh cutoff store = record {
  files =
      outside-fresh cutoff (stale_file_ids cutoff store) store.files
        (listed_lem cutoff store.files);
  rejections = rejections-fresh cutoff store.rejections;
}

pub nothing-IsFresh :
    (cutoff : ℕ) (store : Store)
    → (is_empty (stale_file_ids cutoff store) && stale_rejection_count cutoff store == 0) ≡ true
    → IsFresh cutoff store
nothing-IsFresh cutoff store h = record {
  files = none_stale_files cutoff store.files (ground (arith, h));
  rejections = none_stale_rejections cutoff store.rejections (ground (arith, h));
}
