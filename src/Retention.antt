-- ===== src/Retention.antt =====
-- forensics/management/commands/prune_audit_data.py and the lock of forensics/retention.py, over the
-- store of ingestion. What each of its statements meets is the database's. The rebuilding of the
-- groups' projections, which comes last, and the release behind a database exception are left out.
pub mod Autocommit
pub mod Triple
pub mod Batches
pub mod Cascade
pub mod Window
pub mod Sound
pub mod Fresh
use goggles.Base.Sort.{sorted_set}
use goggles.Ingest.Session.{Database}
use goggles.Retention.Autocommit.{Statements, pure, ◌>>=◌, ◌>>◌, write, read, query}
use goggles.Ingest.Store.{Store, FileRow, RejectionRow, EventRow}
use goggles.Base.{
  ℕ, zero, suc, ◌+◌, ◌-◌, ◌*◌, String, Bool, not, ◌&&◌, Option, none, some, List, [], ◌∷◌, ◌++◌,
  map, ltb, leb, if◌then◌else◌, ◌==◌, length, is_empty, take, drop, select, contains, nat_eq,
  string_eq,
}

abbrev pub delete_batch_size : ℕ
delete_batch_size = 200

abbrev pub ms_per_day : ℕ
ms_per_day = 86400000

-- How a command ends that no database exception ends: with its report, which counts files, rejections
-- and groups, with its CommandError, or with the OverflowError of a cutoff before the year 1.
pub data Command : Type 0 where
  nothing_to_prune : Command
  would_prune : ℕ → ℕ → ℕ → Command
  pruned : ℕ → ℕ → ℕ → Command
  command_error : String → Command
  overflow_error : Command

abbrev pub stale_file_ids : ℕ → Store → List ℕ
stale_file_ids cutoff store =
    map (λ (file : FileRow). file.id) (select (λ file. ltb file.created_at cutoff) store.files)

-- AuditFile.objects.filter(id__in=batch).delete(), with the cascade to the events.
abbrev pub delete_batch : List ℕ → Store → Store
delete_batch batch store = record store {
  files = select (λ (file : FileRow). not (contains file.id batch)) store.files;
  events = select (λ (event : EventRow). not (contains event.audit_file_id batch)) store.events;
}

abbrev pub delete_rejections : ℕ → Store → Store
delete_rejections cutoff store = record store {
  rejections = select (λ (row : RejectionRow). leb cutoff row.created_at) store.rejections;
}

abbrev pub stale_rejection_count : ℕ → Store → ℕ
stale_rejection_count cutoff store =
    length (select (λ (row : RejectionRow). ltb row.created_at cutoff) store.rejections)

-- The time of datetime.min, so far before the epoch.
abbrev pub ms_before_epoch : ℕ
ms_before_epoch = 62135596800000

-- options["retention_days"], where the setting stands in for None; a number below 0 is 0 here.
abbrev pub days_of : ℕ → Option ℕ → ℕ
days_of setting none = setting
days_of setting (some days) = days

abbrev pub files_among : List ℕ → Store → List ℕ
files_among file_ids store =
    map (λ (file : FileRow). file.id) (select (λ file. contains file.id file_ids) store.files)

abbrev pub with_group : Option ℕ → List ℕ → List ℕ
with_group none ids = ids
with_group (some group_id) ids = group_id ∷ ids

-- audit_file.groups.values_list("id")
unfoldable pub groups_in : ℕ → List FileRow → List ℕ
groups_in id [] = []
groups_in id (file ∷ files) =
    let rest = groups_in id files in if file.id == id then file.groups ++ rest else rest

unfoldable pub groups_of : ℕ → Store → List ℕ
unfolding groups_in
groups_of id store = groups_in id store.files

-- AuditEvent.objects.filter(audit_file=audit_file, group__isnull=False).values_list("group_id")
unfoldable pub event_groups_in : ℕ → List EventRow → List ℕ
event_groups_in id [] = []
event_groups_in id (event ∷ events) =
    let rest = event_groups_in id events in
    if event.audit_file_id == id then with_group event.group_id rest else rest

unfoldable pub event_groups_of : ℕ → Store → List ℕ
unfolding event_groups_in
event_groups_of id store = event_groups_in id store.events

module _ ⦃db : Database⦄ where
  -- One statement for each batch, which Django runs in a transaction with its cascade. There are at
  -- most as many batches as files.
  unfoldable pub delete_batches : ℕ → List ℕ → Statements (Unit {0})
  delete_batches zero file_ids = pure tt
  delete_batches (suc fuel) file_ids =
      let later = delete_batches fuel (drop delete_batch_size file_ids) in
      if is_empty file_ids
      then pure tt
      else (write (delete_batch (take delete_batch_size file_ids)) >> later)

  unfoldable pub delete_files : List ℕ → Statements (Unit {0})
  unfolding delete_batches
  delete_files file_ids = delete_batches (length file_ids) file_ids

  -- The loop of touched_group_ids, with a set as a sorted list.
  unfoldable pub query_groups : List ℕ → Statements (List ℕ)
  unfolding groups_of event_groups_of sorted_set
  query_groups [] = pure []
  query_groups (id ∷ file_ids) =
      let later = query_groups file_ids in
      do
        groups ← query (groups_of id)
        event_groups ← query (event_groups_of id)
        group_ids ← later
        pure (sorted_set leb (groups ++ event_groups ++ group_ids))

  abbrev pub touched_group_ids : List ℕ → Statements (List ℕ)
  touched_group_ids file_ids = query (files_among file_ids) >>= query_groups

  -- VACUUM of the two tables.
  abbrev pub vacuum_audit_data : Statements (Unit {0})
  vacuum_audit_data = if db.is_postgresql then (read >> read) else pure tt

  unfoldable pub delete_stale : ℕ → List ℕ → ℕ → List ℕ → Statements Command
  unfolding delete_files
  delete_stale cutoff file_ids rejections group_ids = do
    write (delete_rejections cutoff)
    if is_empty file_ids then pure tt else (delete_files file_ids >> vacuum_audit_data)
    pure (pruned (length file_ids) rejections (length group_ids))

  unfoldable pub prune_stale : ℕ → Bool → List ℕ → ℕ → Statements Command
  unfolding delete_stale query_groups
  prune_stale cutoff dry_run file_ids rejections =
      if is_empty file_ids && rejections == 0
      then pure nothing_to_prune
      else (touched_group_ids file_ids >>= λ group_ids.
          if dry_run
          then pure (would_prune (length file_ids) rejections (length group_ids))
          else delete_stale cutoff file_ids rejections group_ids)

  -- Behind the checks of the window; a time before the epoch is 0, before which is no row.
  abbrev pub prune_before : ℕ → Bool → Statements Command
  prune_before cutoff dry_run = do
    file_ids ← query (stale_file_ids cutoff)
    rejections ← query (stale_rejection_count cutoff)
    prune_stale cutoff dry_run file_ids rejections

  abbrev pub prune : ℕ → Bool → Statements Command
  prune retention_days dry_run =
      if retention_days == 0
      then pure (command_error "retention-days must be a positive integer.")
      else if ltb (db.now + ms_before_epoch) (retention_days * ms_per_day)
      then pure overflow_error
      else prune_before (db.now - retention_days * ms_per_day) dry_run

  -- The end of the `with`, where the lock is given back, behind the report, the CommandError or the
  -- OverflowError of the command.
  abbrev pub released : Statements Command → Statements Command
  released body = body >>= λ c. read >> pure c

  unfoldable pub retention_lock : Statements Command → Statements Command
  retention_lock body =
      if db.is_postgresql
      then (read
          >> (if db.lock_free "retention"
              then released body
              else pure (command_error "Another audit retention run is already active.")))
      else body

  -- Command.handle, with the setting for the option that is None.
  unfoldable pub handle : ℕ → Option ℕ → Bool → Statements Command
  unfolding prune_stale retention_lock
  handle setting retention_days dry_run =
      retention_lock (prune (days_of setting retention_days) dry_run)
