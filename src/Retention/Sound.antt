-- ===== src/Retention/Sound.antt =====
-- Pruning keeps the store well-formed, at every statement.
use goggles.Ingest.Session.{Database, Session}
use goggles.Retention.Autocommit.{
  Statements, Run, went_on, broke_off, session_of, pure, gets, ◌>>=◌, ◌>>◌, write, read, query,
}
use goggles.Retention.Triple.{Triple, Ends, Triple-pure, Triple-bind, Triple-if, Triple-write}
use goggles.Retention.{
  files_among, groups_of, event_groups_of, days_of, ms_before_epoch, delete_batches,
  delete_batch_size, query_groups, vacuum_audit_data, delete_stale, prune_stale, prune,
  retention_lock, prune_before, Command, delete_batch, handle, stale_file_ids, ms_per_day,
  stale_rejection_count, delete_files, delete_rejections, touched_group_ids,
}
use goggles.Ingest.Store.{Store}
use goggles.Base.{
  ℕ, zero, suc, ◌+◌, ◌-◌, ◌*◌, Bool, ◌&&◌, Option, List, [], ◌∷◌, ltb, if◌then◌else◌, ◌==◌, length,
  is_empty, take, drop, nat_eq, string_eq, pair_eq,
}
use goggles.Ingest.Transaction.Sound.{IsWellFormed}
use goggles.Retention.Cascade.{delete_batch-IsWellFormed}

module _ ⦃db : Database⦄ where
  -- A run that keeps the store well-formed, also where it breaks off.
  abbrev Keeps : {A : Type 0} → Statements A → Type 0
  Keeps m = Triple IsWellFormed m (λ _ store. IsWellFormed store) IsWellFormed

  Keeps-pure : {A : Type 0} (a : A) → Keeps (pure a)
  Keeps-pure a = Triple-pure IsWellFormed IsWellFormed a _ (λ store w. w)

  Keeps-bind :
      {A B : Type 0} (m : Statements A) (f : A → Statements B)
      → Keeps m
      → ((a : A) → Keeps (f a))
      → Keeps (m >>= f)
  Keeps-bind m f km kf = Triple-bind IsWellFormed IsWellFormed m f _ _ km kf

  Keeps-if :
      {A : Type 0} (b : Bool) (f g : Statements A) → Keeps f → Keeps g → Keeps (if b then f else g)
  Keeps-if b f g kf kg = Triple-if IsWellFormed IsWellFormed b f g _ (λ _. kf) (λ _. kg)

  Keeps-write :
      (f : Store → Store)
      → ((store : Store) → IsWellFormed store → IsWellFormed (f store))
      → Keeps (write f)
  Keeps-write f h = Triple-write IsWellFormed IsWellFormed f _ h (λ store w. w)

  Keeps-read : Keeps read
  Keeps-read = Keeps-write (λ store. store) (λ store w. w)

  Keeps-query : {A : Type 0} (f : Store → A) → Keeps (query f)
  Keeps-query f = Keeps-bind read (λ _. gets f) Keeps-read (λ _. record { run = λ s w. w })

  Keeps-delete_batches : (fuel : ℕ) (ids : List ℕ) → Keeps (delete_batches fuel ids)
  unfolding delete_batches
  Keeps-delete_batches zero ids = Keeps-pure tt
  Keeps-delete_batches (suc fuel) ids = Keeps-if (is_empty ids) _ _ (Keeps-pure tt) (
      Keeps-bind _ _
        (Keeps-write (delete_batch (take delete_batch_size ids))
          (delete_batch-IsWellFormed (take delete_batch_size ids)))
        (λ _. Keeps-delete_batches fuel (drop delete_batch_size ids)))

  Keeps-delete_files : (ids : List ℕ) → Keeps (delete_files ids)
  unfolding delete_files
  Keeps-delete_files ids = Keeps-delete_batches (length ids) ids

  Keeps-query_groups : (ids : List ℕ) → Keeps (query_groups ids)
  unfolding query_groups
  Keeps-query_groups [] = Keeps-pure []
  Keeps-query_groups (id ∷ ids) =
      Keeps-bind (query (groups_of id)) _ (Keeps-query (groups_of id)) (λ _.
        Keeps-bind (query (event_groups_of id)) _ (Keeps-query (event_groups_of id))
          (λ _. Keeps-bind (query_groups ids) _ (Keeps-query_groups ids) (λ _. Keeps-pure _)))

  Keeps-vacuum_audit_data : Keeps vacuum_audit_data
  Keeps-vacuum_audit_data =
      Keeps-if db.is_postgresql _ _ (Keeps-bind read _ Keeps-read (λ _. Keeps-read)) (Keeps-pure tt)

  Keeps-delete_stale :
      (cutoff : ℕ) (ids : List ℕ) (n : ℕ) (group_ids : List ℕ)
      → Keeps (delete_stale cutoff ids n group_ids)
  unfolding delete_stale
  Keeps-delete_stale cutoff ids n group_ids =
      Keeps-bind (write (delete_rejections cutoff)) _
        (Keeps-write (delete_rejections cutoff) (λ store w. record {
          below = w.below;
          hashes = w.hashes;
          owned = w.owned;
          apart = w.apart;
        }))
        (λ _.
          Keeps-bind (if is_empty ids then pure tt else (delete_files ids >> vacuum_audit_data)) _
            (Keeps-if (is_empty ids) _ _ (Keeps-pure tt) (
              Keeps-bind (delete_files ids) _ (Keeps-delete_files ids)
                (λ _. Keeps-vacuum_audit_data)))
            (λ _. Keeps-pure _))

  Keeps-prune_stale :
      (cutoff : ℕ) (dry_run : Bool) (ids : List ℕ) (n : ℕ)
      → Keeps (prune_stale cutoff dry_run ids n)
  unfolding prune_stale
  Keeps-prune_stale cutoff dry_run ids n = Keeps-if (is_empty ids && n == 0) _ _ (Keeps-pure _) (
      Keeps-bind (touched_group_ids ids) _
        (Keeps-bind (query (files_among ids)) _ (Keeps-query (files_among ids)) Keeps-query_groups)
        (λ group_ids.
          Keeps-if dry_run _ _ (Keeps-pure _) (Keeps-delete_stale cutoff ids n group_ids)))

  Keeps-prune_before : (cutoff : ℕ) (dry_run : Bool) → Keeps (prune_before cutoff dry_run)
  Keeps-prune_before cutoff dry_run =
      Keeps-bind (query (stale_file_ids cutoff)) _ (Keeps-query (stale_file_ids cutoff)) (λ ids.
        Keeps-bind (query (stale_rejection_count cutoff)) _
          (Keeps-query (stale_rejection_count cutoff))
          (λ n. Keeps-prune_stale cutoff dry_run ids n))

  Keeps-prune : (retention_days : ℕ) (dry_run : Bool) → Keeps (prune retention_days dry_run)
  Keeps-prune retention_days dry_run = Keeps-if (retention_days == 0) _ _ (Keeps-pure _) (
      Keeps-if (ltb (db.now + ms_before_epoch) (retention_days * ms_per_day)) _ _ (Keeps-pure _)
        (Keeps-prune_before (db.now - retention_days * ms_per_day) dry_run))

  Keeps-retention_lock : (body : Statements Command) → Keeps body → Keeps (retention_lock body)
  unfolding retention_lock
  Keeps-retention_lock body k =
      Keeps-if db.is_postgresql _ _
        (Keeps-bind read _ Keeps-read (λ _.
          Keeps-if (db.lock_free "retention") _ _
            (Keeps-bind body _ k (λ c. Keeps-bind read _ Keeps-read (λ _. Keeps-pure c)))
            (Keeps-pure _)))
        k

  -- However the command ends, and at whatever statement a database exception ends it, it leaves the
  -- store well-formed if it was: in particular every event that stays is still of a valid file that
  -- stays.
  pub handle-IsWellFormed :
      (setting : ℕ) (retention_days : Option ℕ) (dry_run : Bool) (s : Session)
      → IsWellFormed s.store
      → IsWellFormed (session_of (handle setting retention_days dry_run s)).store
  unfolding handle
  handle-IsWellFormed setting retention_days dry_run s w =
      go (handle setting retention_days dry_run s)
        ((Keeps-retention_lock _ (Keeps-prune (days_of setting retention_days) dry_run)).run s w)
    where
      go :
          (r : Run Command)
          → Ends (λ _ store. IsWellFormed store) IsWellFormed r
          → IsWellFormed (session_of r).store
      go (went_on c t) h = h
      go (broke_off fault t) h = h.0
