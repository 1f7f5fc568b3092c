-- ===== src/Ingest/Transaction.antt =====
-- `ingest_audit_log_bytes`, `create_events` and `refresh_group_rollups` of forensics/ingest.py, and
-- `begin_ingestion` of forensics/ingestion_limits.py. The projections that create_events rebuilds
-- are in tables of their own, which nothing here reads: here they are a statement that may fail.
pub mod Effects
pub mod Stored
pub mod Recorded
pub mod Whole
pub mod Archive
pub mod Again
pub mod Apart
pub mod Sound
pub mod Kept
pub mod Rollups
pub mod Counted
use goggles.Ingest.Tables.{
  first_file, save_file, stored_rows_of, group_ids_of, event_rows, add_events, add_file, put_file,
  structural_quarantine_errors, with_count,
}
use goggles.Ingest.Groups.Key.{key_eq}
use goggles.Base.Text.{str_leb}
use goggles.Base.Sort.{sorted_set}
use goggles.Ingest.Groups.Key.{sorted_keys}
use goggles.Event.{AuditEvent}
use goggles.Upload.Validate.{Verdict, validate_upload, rejected, status_code, accepted}
use goggles.Upload.Parse.{ParsedLine}
use goggles.Ingest.Groups.Find.{groups_for_keys}
use goggles.Ingest.Metadata.{file_metadata, body_source_metadata}
use goggles.Analysis.Landing.{divergent_counts_for_group_ids, distinct_ids}
use goggles.Ingest.Duplicates.{created_lines, existing_duplicate_events}
use goggles.Env.{Env}
use goggles.Ingest.Values.{audit_event_of}
use goggles.Ingest.Groups.{GroupKey}
use goggles.Ingest.Store.{FileRow, Store, GroupRow}
use goggles.Base.Dict.{Dict}
use goggles.Ingest.Session.{
  ◌>>=◌, ◌>>◌, Database, Attempt, Transaction, statement, done, gets, modify, pure, raise, raised,
  busy, failed, integrity, locked,
}
use goggles.Base.{
  ℕ, String, Bool, true, not, ◌&&◌, Option, none, some, List, [], ◌∷◌, ◌++◌, map, ltb,
  if◌then◌else◌, ◌==◌, length, is_empty, any, select, contains, string_eq, nat_eq, pair_eq,
}

-- The arguments of ingest_audit_log_bytes; a fallback slug of None is "".
pub record Dump : Type 0 where
  pub dump_bytes : List ℕ
  pub fallback_group_slug : String
  pub fallback_group_name : String
  pub upload_token : Option ℕ
  pub uploaded_by : Option ℕ

pub data IngestionResult : Type 0 where
  created : FileRow → IngestionResult
  existing : FileRow → IngestionResult
  refused : String → Option ℕ → IngestionResult

module _ ⦃db : Database⦄ where
  -- structural_quarantine_exclusion: whether the file of that id is left out.
  unfoldable pub is_quarantined : ℕ → List FileRow → Bool
  is_quarantined id rows =
      any
        (λ row.
          row.id == id
          && any (λ error. db.icontains error row.validation_error) structural_quarantine_errors)
        rows

  -- The events that count for a group.
  unfoldable pub counted_events : Store → List AuditEvent
  unfolding is_quarantined audit_event_of
  counted_events store = map audit_event_of (
      select (λ event. event.parse_is_valid && not (is_quarantined event.audit_file_id store.files))
        store.events)

  abbrev pub put_counts : List ℕ → Store → Store
  put_counts ids store =
      let counts = divergent_counts_for_group_ids ids (counted_events store) in
      record store { groups = map (with_count ids counts) store.groups }

  unfoldable pub refresh_group_rollups : List ℕ → Transaction (Unit {0})
  unfolding statement counted_events divergent_counts_for_group_ids distinct_ids
  refresh_group_rollups group_ids =
      let ids = distinct_ids [] group_ids in
      if is_empty ids then pure tt else statement >> (statement >> modify (put_counts ids))

  -- pg_try_advisory_xact_lock for each recorder, in order.
  unfoldable pub lock_recorders : List String → Transaction (Unit {0})
  unfolding statement
  lock_recorders [] = pure tt
  lock_recorders (engine_id ∷ engine_ids) = do
    statement
    if db.lock_free engine_id then pure tt else raise busy
    lock_recorders engine_ids

  unfoldable pub begin_ingestion : List String → Transaction (Unit {0})
  unfolding lock_recorders statement
  begin_ingestion engine_ids =
      if not db.is_postgresql
      then pure tt
      else if ltb db.pg_version 170000
      then raise (failed "RuntimeError")
      else (statement
          >> (statement
              >> (statement >> (statement >> lock_recorders (sorted_set str_leb engine_ids)))))

  abbrev pub insert_file : FileRow → Option FileRow → Transaction FileRow
  insert_file row none = modify (add_file row) >> pure row
  insert_file row (some taken) = raise integrity

  -- AuditFile.objects.create, behind the unique constraint on the hash.
  unfoldable pub create_file : (ℕ → FileRow) → Transaction FileRow
  unfolding statement first_file
  create_file row_at = do
    statement
    id ← gets (λ store. store.next_file)
    taken ← gets (λ store. first_file (row_at id).file_sha256 store.files)
    insert_file (row_at id) taken

  abbrev pub link_groups : FileRow → List ℕ → Transaction FileRow
  link_groups file group_ids = if is_empty group_ids then pure file else (do
    statement
    modify (put_file (record file { groups = group_ids }))
    pure (record file { groups = group_ids }))

  abbrev pub count_duplicates : FileRow → ℕ → Transaction FileRow
  count_duplicates file duplicate_count = if duplicate_count == 0 then pure file else (do
    statement
    modify (put_file (record file { duplicate_event_count = duplicate_count }))
    pure (record file { duplicate_event_count = duplicate_count }))

  -- What create_events does once it knows the new lines and the count of the others: the file with
  -- its links, that count and the ids of the groups.
  unfoldable pub store_lines :
      FileRow
      → String
      → Dict GroupKey GroupRow
      → List ℕ
      → List ParsedLine × ℕ
      → Transaction (FileRow × ℕ × List ℕ)
  unfolding statement event_rows save_file
  store_lines file fallback_group_slug groups_by_key group_ids (lines, duplicate_count) = do
    statement
    id ← gets (λ store. store.next_event)
    modify (add_events (event_rows id file.id fallback_group_slug groups_by_key lines))
    linked ← link_groups file group_ids
    statement
    pure (linked, duplicate_count, group_ids)

  unfoldable pub create_events :
      FileRow
      → List ParsedLine
      → String
      → Dict GroupKey GroupRow
      → Transaction (FileRow × ℕ × List ℕ)
  unfolding statement created_lines existing_duplicate_events group_ids_of store_lines
  create_events file parsed_lines fallback_group_slug groups_by_key = do
    statement
    stored ← gets stored_rows_of
    store_lines file fallback_group_slug groups_by_key
        (group_ids_of fallback_group_slug groups_by_key parsed_lines)
        (created_lines parsed_lines (existing_duplicate_events parsed_lines file.is_valid stored))

  -- The ids that the query for the locked groups returns.
  abbrev pub ids_of_groups : List ℕ → Store → List ℕ
  ids_of_groups group_ids store =
      map (λ (row : GroupRow). row.id) (select (λ row. contains row.id group_ids) store.groups)

module _ ⦃env : Env⦄ ⦃db : Database⦄ where
  abbrev pub file_row : Dump → String → List ParsedLine → ℕ → FileRow
  file_row dump raw_text parsed_lines id = record {
    id = id;
    upload_token = dump.upload_token;
    uploaded_by = dump.uploaded_by;
    content_type = "application/x-ndjson";
    file_sha256 = env.sha256_bytes dump.dump_bytes;
    byte_size = length dump.dump_bytes;
    raw_text = raw_text;
    is_valid = true;
    validation_error = "";
    source = body_source_metadata parsed_lines;
    metadata = file_metadata parsed_lines;
    duplicate_event_count = 0;
    created_at = db.now;
    groups = [];
  }

  -- Behind the creation of the file's row.
  unfoldable pub complete_upload :
      Dump → List ParsedLine → Dict GroupKey GroupRow → FileRow → Transaction FileRow
  unfolding create_events refresh_group_rollups statement
  complete_upload dump parsed_lines groups_by_key file = do
    out ← create_events file parsed_lines dump.fallback_group_slug groups_by_key
    saved ← count_duplicates out.0 out.1
    statement
    locked_group_ids ← gets (ids_of_groups out.2)
    refresh_group_rollups locked_group_ids
    pure saved

  -- The body of `with transaction.atomic()`.
  unfoldable pub store_upload : Dump → String → List ParsedLine → Transaction FileRow
  unfolding begin_ingestion groups_for_keys sorted_keys create_file complete_upload statement
  store_upload dump raw_text parsed_lines = do
    begin_ingestion (file_metadata parsed_lines).engine_ids
    groups_by_key ←
        groups_for_keys (sorted_keys parsed_lines dump.fallback_group_slug) dump.fallback_group_name
    statement
    file ← create_file (file_row dump raw_text parsed_lines)
    complete_upload dump parsed_lines groups_by_key file

  -- UploadRejection.objects.create, unless the database fails.
  unfoldable pub record_ingestion_rejection : Dump → String → Option ℕ → Store → Store
  unfolding status_code
  record_ingestion_rejection dump code line_number store =
      if db.can_record
      then (record store {
        rejections =
            store.rejections
            ++ (record {
              upload_token = dump.upload_token;
              received_bytes = length dump.dump_bytes;
              reason = code;
              status_code = status_code code;
              created_at = db.now;
              line_number = line_number;
            })
              ∷ [];
      })
      else store

  abbrev pub ingest_failed : Dump → Store → IngestionResult × Store
  ingest_failed dump store =
      (refused "ingest_failed" none, record_ingestion_rejection dump "ingest_failed" none store)

  -- Another request has stored the same file.
  abbrev pub after_conflict : Dump → Option FileRow → Store → IngestionResult × Store
  after_conflict dump (some file) store = (existing file, store)
  after_conflict dump none store = ingest_failed dump store

  -- The end of the transaction: its store, or the tables as they are found after the rollback.
  abbrev pub conclude : Dump → Attempt FileRow → Store → IngestionResult × Store
  conclude dump (done file session) store = (created file, session.store)
  conclude dump (raised busy) store = (refused "ingest_busy" none, db.others store)
  conclude dump (raised locked) store = (refused "ingest_busy" none, db.others store)
  conclude dump (raised integrity) store =
      after_conflict dump (first_file (env.sha256_bytes dump.dump_bytes) (db.others store).files)
        (db.others store)
  conclude dump (raised (failed name)) store = ingest_failed dump (db.others store)

  abbrev pub unless_existing :
      Dump → String → List ParsedLine → Option FileRow → Store → IngestionResult × Store
  unless_existing dump raw_text lines (some file) store = (existing file, store)
  unless_existing dump raw_text lines none store =
      conclude dump (store_upload dump raw_text lines (record { store = store; statements = 0 }))
        store

  abbrev pub ingest_judged : Dump → Verdict → Store → IngestionResult × Store
  ingest_judged dump (rejected code line_number) store =
      (refused code line_number, record_ingestion_rejection dump code line_number store)
  ingest_judged dump (accepted raw_text lines) store =
      unless_existing dump raw_text lines
        (first_file (env.sha256_bytes dump.dump_bytes) store.files) store

  unfoldable pub ingest_audit_log_bytes : Dump → Store → IngestionResult × Store
  unfolding store_upload record_ingestion_rejection first_file
  ingest_audit_log_bytes dump store = ingest_judged dump (validate_upload dump.dump_bytes) store
