-- ===== src/Ingest/Transaction/Stored.antt =====
-- What a transaction that succeeds has written.
use goggles.Ingest.Transaction.Effects.{Spares-statement}
use goggles.Ingest.Session.Post.{Post, Spares, Untouched, Post-bind, Post-if}
use goggles.Ingest.Transaction.{count_duplicates, link_groups, create_file, insert_file}
use goggles.Ingest.Tables.{save_file, put_file}
use goggles.Ingest.Store.{FileRow, EventRow, RejectionRow, Store}
use goggles.Ingest.Session.{
  ◌>>=◌, ◌>>◌, Database, Session, Attempt, Transaction, done, statement, modify, raised, pure,
}
use goggles.Base.{
  ℕ, suc, ◌<◌, ◌≡◌, refl, ap, ◌∙◌, Option, none, some, List, [], ◌∷◌, ◌++◌, arith, ◌==◌, is_empty,
  All, string_eq, nat_eq,
}
use mathlib.Core.Path.{subst}

-- The tables of the evidence are these.
pub record At (F : List FileRow) (E : List EventRow) (R : List RejectionRow) (n m : ℕ) (t : Store)
    : Type 0 where
  pub files : t.files ≡ F
  pub events : t.events ≡ E
  pub rejections : t.rejections ≡ R
  pub next_file : t.next_file ≡ n
  pub next_event : t.next_event ≡ m

At-Untouched :
    (F : List FileRow) (E : List EventRow) (R : List RejectionRow) (n m : ℕ) (s t : Store)
    → At F E R n m s
    → Untouched s t
    → At F E R n m t
At-Untouched F E R n m s t h u = record {
  files = u.files ∙ h.files;
  events = u.events ∙ h.events;
  rejections = u.rejections ∙ h.rejections;
  next_file = u.next_file ∙ h.next_file;
  next_event = u.next_event ∙ h.next_event;
}

Post-map :
    {A : Type 0} (Q R : A → Session → Type 0) (x : Attempt A)
    → Post Q x
    → ((a : A) (t : Session) → Q a t → R a t)
    → Post R x
Post-map Q R (done a t) h k = k a t h
Post-map Q R (raised fault) h k = tt

-- A step that spares the evidence, and what follows it.
pub spared :
    {A B : Type 0} (F : List FileRow) (E : List EventRow) (R : List RejectionRow) (n m : ℕ)
    (Q : B → Session → Type 0) (step : Transaction A) (f : A → Transaction B) (s : Session)
    → Spares step
    → At F E R n m s.store
    → ((a : A) (t : Session) → At F E R n m t.store → Post Q (f a t))
    → Post Q ((step >>= f) s)
spared F E R n m Q step f s p h k =
    Post-bind (λ _ t. At F E R n m t.store) Q (step s) f
      (Post-map (λ _ t. Untouched s.store t.store) (λ _ t. At F E R n m t.store) (step s)
        (p.spare s) (λ a t u. At-Untouched F E R n m s.store t.store h u))
      k

-- The ids of the rows are behind the sequence.
abbrev pub AreBelow : ℕ → List FileRow → Type 0
AreBelow n rows = All (λ row. row.id < n) rows

save_file-append :
    (new old : FileRow) (rows : List FileRow)
    → AreBelow new.id rows
    → old.id ≡ new.id
    → save_file new (rows ++ old ∷ []) ≡ rows ++ new ∷ []
unfolding save_file
save_file-append new old [] h e = ground arith
save_file-append new old (row ∷ rows) h e = ground (arith, save_file-append new old rows h.1 e, h.0)

-- What of the new file's row is settled when it is created.
pub record Renews (old new : FileRow) : Type 0 where
  pub id : new.id ≡ old.id
  pub file_sha256 : new.file_sha256 ≡ old.file_sha256
  pub raw_text : new.raw_text ≡ old.raw_text
  pub is_valid : new.is_valid ≡ old.is_valid
  pub metadata : new.metadata ≡ old.metadata

pub Renews-trans : (a b c : FileRow) → Renews a b → Renews b c → Renews a c
Renews-trans a b c h k = record {
  id = k.id ∙ h.id;
  file_sha256 = k.file_sha256 ∙ h.file_sha256;
  raw_text = k.raw_text ∙ h.raw_text;
  is_valid = k.is_valid ∙ h.is_valid;
  metadata = k.metadata ∙ h.metadata;
}

abbrev renewed : (file : FileRow) → Renews file file
renewed file = record {
  id = refl;
  file_sha256 = refl;
  raw_text = refl;
  is_valid = refl;
  metadata = refl;
}

module _ ⦃db : Database⦄ (F : List FileRow) (R : List RejectionRow) (n : ℕ) where
  -- The tables with the file's row last.
  abbrev pub With : List EventRow → ℕ → FileRow → Store → Type 0
  With E m file t = At (F ++ file ∷ []) E R n m t

  put_step :
      (E : List EventRow) (m : ℕ) (old new : FileRow) (s : Session)
      → AreBelow new.id F
      → old.id ≡ new.id
      → With E m old s.store
      → Post
          (λ file t. (file ≡ new) × With E m file t.store)
          ((statement >> (modify (put_file new) >> pure new)) s)
  put_step E m old new s below e h =
      spared (F ++ old ∷ []) E R n m _ statement _ s Spares-statement h (λ _ t k. (
        refl,
        record {
          files = ap (save_file new) k.files ∙ save_file-append new old F below e;
          events = k.events;
          rejections = k.rejections;
          next_file = k.next_file;
          next_event = k.next_event;
        },
      ))

  -- The new row, behind a change of nothing that is settled.
  abbrev pub Changed : List EventRow → ℕ → FileRow → ℕ → FileRow → Session → Type 0
  Changed E m file count new t =
      Renews file new × (new.duplicate_event_count ≡ count) × With E m new t.store

  changed :
      (E : List EventRow) (m : ℕ) (file row : FileRow)
      → Renews file row
      → (new : FileRow) (t : Session) → (new ≡ row) × With E m new t.store
      → Changed E m file row.duplicate_event_count new t
  changed E m file row r new t (e, k) = (rw e r, ap (λ (f : FileRow). f.duplicate_event_count) e, k)

  pub link_groups_lem :
      (E : List EventRow) (m : ℕ) (file : FileRow) (ids : List ℕ) (s : Session)
      → AreBelow file.id F
      → With E m file s.store
      → Post (Changed E m file file.duplicate_event_count) (link_groups file ids s)
  link_groups_lem E m file ids s below h =
      let new = record file { groups = ids } in
      Post-if (Changed E m file file.duplicate_event_count) (is_empty ids) _ _ s
        (λ _. (renewed file, refl, h))
        (λ _.
          Post-map (λ row t. (row ≡ new) × With E m row t.store)
            (Changed E m file file.duplicate_event_count) _ (put_step E m file new s below refl h)
            (changed E m file new (record {
              id = refl;
              file_sha256 = refl;
              raw_text = refl;
              is_valid = refl;
              metadata = refl;
            })))

  pub count_duplicates_lem :
      (E : List EventRow) (m : ℕ) (file : FileRow) (count : ℕ) (s : Session)
      → AreBelow file.id F
      → file.duplicate_event_count ≡ 0
      → With E m file s.store
      → Post (Changed E m file count) (count_duplicates file count s)
  count_duplicates_lem E m file count s below z h =
      let new = record file { duplicate_event_count = count } in
      Post-if (Changed E m file count) (count == 0) _ _ s (λ e. (renewed file, ground arith, h))
        (λ _.
          Post-map (λ row t. (row ≡ new) × With E m row t.store) (Changed E m file count) _
            (put_step E m file new s below refl h)
            (changed E m file new (record {
              id = refl;
              file_sha256 = refl;
              raw_text = refl;
              is_valid = refl;
              metadata = refl;
            })))

  insert_file_lem :
      (E : List EventRow) (m : ℕ) (row : FileRow) (o : Option FileRow) (s : Session)
      → At F E R n m s.store
      → Post
          (λ file t. (file ≡ row) × (o ≡ none) × At (F ++ row ∷ []) E R (suc n) m t.store)
          (insert_file row o s)
  insert_file_lem E m row none s h = (
    refl,
    refl,
    record {
      files = ap (λ rows. rows ++ row ∷ []) h.files;
      events = h.events;
      rejections = h.rejections;
      next_file = ap suc h.next_file;
      next_event = h.next_event;
    },
  )
  insert_file_lem E m row (some taken) s h = tt

  pub create_file_lem :
      (E : List EventRow) (m : ℕ) (row_at : ℕ → FileRow) (s : Session)
      → At F E R n m s.store
      → Post
          (λ file t. (file ≡ row_at n) × At (F ++ row_at n ∷ []) E R (suc n) m t.store)
          (create_file row_at s)
  unfolding create_file
  create_file_lem E m row_at s h = spared F E R n m _ statement _ s Spares-statement h (λ _ t k.
      Post-map _ (λ file u. (file ≡ row_at n) × At (F ++ row_at n ∷ []) E R (suc n) m u.store) _
        (insert_file_lem E m (row_at t.store.next_file) _ t k)
        (λ file u q.
          let e = k.next_file in
          (q.0 ∙ ap row_at e, subst (λ k. At (F ++ row_at k ∷ []) E R (suc n) m u.store) e q.2)))
