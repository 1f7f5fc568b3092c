-- ===== src/Tests/Ingestion.antt =====
-- The ingestion theorems at work on an empty store, whose database has no faults.
use goggles.Ingest.Transaction.Rollups.{ShowsCount, refresh_group_rollups-ShowsCount}
use goggles.Ingest.Session.Post.{Post}
use goggles.Ingest.Transaction.Counted.{ingest_audit_log_bytes-counts}
use goggles.Ingest.Groups.{group_key_for_parsed_line}
use goggles.Base.Sort.{sorted_set}
use goggles.Ingest.Values.{event_values}
use goggles.Ingest.Duplicates.{
  created_lines, existing_duplicate_events, note_rows, duplicate_event_exists,
  remember_duplicate_event,
}
use goggles.Ingest.Groups.Key.{sorted_keys}
use goggles.Ingest.Groups.Find.{groups_for_keys}
use goggles.Json.{value_if_str, value_if_int, is_hex}
use goggles.Normalize.Columns.{columns, model_max_length, model_int_field_max}
use goggles.Upload.Identity.{has_inconsistent_identity, mixed_from}
use goggles.Normalize.Kind.{normalize_kind}
use goggles.Normalize.Copy.{string_exceeds_model_limit, int_exceeds_model_limit}
use goggles.Normalize.Event.{
  normalize_event, schema_error_code, initial, bounded_str_or_empty, check_seq, check_wall_time,
  check_engine_id, check_group_ref, normalize_event_kind, normalize_context,
}
use goggles.Json.Depth.{max_json_nesting_depth, scan, scan_char, scan_plain, scan_string}
use goggles.Json.Load.{loads_audit_json, hooked, unique_from}
use goggles.Base.Text.{str_len}
use goggles.Upload.Lines.{iter_jsonl_record_lines, split_lines, drop_cr}
use goggles.Upload.Parse.{parse_jsonl}
use goggles.Ingest.Transaction.Again.{ingest_audit_log_bytes-again}
use goggles.Upload.Validate.{validate_upload, first_error}
use goggles.Ingest.Transaction.Kept.{ingest_audit_log_bytes-IsWellFormed}
use goggles.Tests.Uploads.{upload, small_env}
use goggles.Ingest.Transaction.Archive.{EitherOutcome, ingest_audit_log_bytes-Deposits}
use goggles.Ingest.Transaction.Sound.{IsWellFormed}
use goggles.Ingest.Transaction.{
  Dump, IngestionResult, ingest_audit_log_bytes, created, existing, refused, store_upload,
  begin_ingestion, create_file, complete_upload, create_events, refresh_group_rollups, store_lines,
  file_row, counted_events,
}
use goggles.Ingest.Tables.{first_file, group_ids_of, event_rows, save_file}
use goggles.Ingest.Store.{Store, FileRow}
use goggles.Ingest.Session.{Database, statement, Session}
use goggles.Base.{◌+◌, String, ◌≡◌, refl, true, false, none, some, [], ◌∷◌, length, All}
use goggles.Base.Dict
use goggles.Upload.Identity.{mixed_from}

instance abbrev pub calm : Database
calm = record {
  is_postgresql = false;
  pg_version = 0;
  fault = λ n. none;
  lock_free = λ engine_id. true;
  others = λ s. s;
  can_record = true;
  now = 1000;
  icontains = λ part text. false;
}

abbrev pub no_rows : Store
no_rows = record {
  groups = [];
  files = [];
  events = [];
  rejections = [];
  next_group = 1;
  next_file = 1;
  next_event = 1;
}

abbrev pub dump_for : String → Dump
dump_for name = record {
  dump_bytes = upload;
  fallback_group_slug = name;
  fallback_group_name = "";
  upload_token = some 7;
  uploaded_by = none;
}

pub no_rows-IsWellFormed : IsWellFormed no_rows
no_rows-IsWellFormed = record { below = tt; hashes = tt; owned = tt; apart = tt }

ingest_audit_log_bytes-Deposits_example :
    EitherOutcome (dump_for "") no_rows (ingest_audit_log_bytes (dump_for "") no_rows)
ingest_audit_log_bytes-Deposits_example = ingest_audit_log_bytes-Deposits (dump_for "") no_rows tt

ingest_audit_log_bytes-IsWellFormed_example :
    IsWellFormed (ingest_audit_log_bytes (dump_for "") no_rows).1
ingest_audit_log_bytes-IsWellFormed_example =
    ingest_audit_log_bytes-IsWellFormed (dump_for "") no_rows no_rows-IsWellFormed
      no_rows-IsWellFormed

abbrev file_or : FileRow → IngestionResult → FileRow
file_or default (created file) = file
file_or default (existing file) = file
file_or default (refused code line_number) = default

abbrev first_upload : IngestionResult × Store
first_upload = ingest_audit_log_bytes (dump_for "") no_rows

abbrev stored_file : FileRow
stored_file = file_or (file_row (dump_for "") "" [] 0) first_upload.0

first_upload_stored :
    ingest_audit_log_bytes (dump_for "") no_rows ≡ (created stored_file, first_upload.1)
unfolding validate_upload parse_jsonl iter_jsonl_record_lines split_lines drop_cr str_len
    loads_audit_json max_json_nesting_depth scan scan_char scan_plain scan_string hooked unique_from
    Dict.get Dict.put normalize_event schema_error_code initial bounded_str_or_empty
    string_exceeds_model_limit check_seq check_wall_time check_engine_id check_group_ref
    int_exceeds_model_limit normalize_event_kind normalize_context normalize_kind first_error
    has_inconsistent_identity mixed_from columns value_if_str value_if_int model_max_length
    model_int_field_max ingest_audit_log_bytes store_upload first_file begin_ingestion
    groups_for_keys sorted_keys create_file complete_upload create_events refresh_group_rollups
    statement created_lines existing_duplicate_events group_ids_of store_lines event_rows save_file
    event_values note_rows duplicate_event_exists remember_duplicate_event sorted_set
    group_key_for_parsed_line is_hex
first_upload_stored = refl

ingest_audit_log_bytes-again_example :
    ingest_audit_log_bytes (dump_for "other") first_upload.1
    ≡ (existing stored_file, first_upload.1)
ingest_audit_log_bytes-again_example =
    ingest_audit_log_bytes-again (dump_for "") (dump_for "other") no_rows first_upload.1 stored_file
      tt refl first_upload_stored

ingest_audit_log_bytes-counts_example :
    length first_upload.1.events + stored_file.duplicate_event_count
    ≡ length no_rows.events + stored_file.metadata.total_line_count
ingest_audit_log_bytes-counts_example =
    ingest_audit_log_bytes-counts (dump_for "") no_rows first_upload.1 stored_file tt
      first_upload_stored

abbrev grouped : Session
grouped = record { store = (ingest_audit_log_bytes (dump_for "team") no_rows).1; statements = 0 }

refresh_group_rollups-ShowsCount_example :
    Post
      (λ _ t. All (ShowsCount (1 ∷ []) (counted_events t.store)) t.store.groups)
      (refresh_group_rollups (1 ∷ []) grouped)
refresh_group_rollups-ShowsCount_example = refresh_group_rollups-ShowsCount (1 ∷ []) grouped
