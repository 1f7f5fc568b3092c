-- ===== src/Tests/Prunings.antt =====
-- Pruning at work on the store that an upload leaves, two days later.
use goggles.Retention.Batches.{delete_files_lem, Deleted}
use goggles.Retention.Sound.{handle-IsWellFormed}
use goggles.Ingest.Transaction.Kept.{ingest_audit_log_bytes-IsWellFormed}
use goggles.Ingest.Transaction.{ingest_audit_log_bytes}
use goggles.Retention.Fresh.{FreshOr, handle-IsFresh}
use goggles.Retention.Triple.{Ends}
use goggles.Retention.Autocommit.{Run, went_on, broke_off, session_of, write}
use goggles.Retention.{Command, pruned, delete_files, handle}
use goggles.Ingest.Transaction.Sound.{IsWellFormed}
use goggles.Ingest.Store.{RejectionRow, Store, FileRow}
use goggles.Ingest.Session.{Database, Session, failed}
use goggles.Base.{
  ℕ, ◌+◌, ◌≡◌, refl, Bool, true, false, none, some, [], ◌∷◌, map, if◌then◌else◌, ◌==◌, length,
  nat_eq, string_eq, pair_eq,
}
use goggles.Tests.Uploads.{small_env}
use goggles.Tests.Ingestion.{calm, no_rows, dump_for, no_rows-IsWellFormed}

abbrev days_later : Database
days_later = record calm { now = 172801000 }

abbrev one_upload : Store
one_upload = (ingest_audit_log_bytes ⦃db = calm⦄ (dump_for "team") no_rows).1

one_upload-IsWellFormed : IsWellFormed one_upload
one_upload-IsWellFormed =
    ingest_audit_log_bytes-IsWellFormed ⦃db = calm⦄ (dump_for "team") no_rows no_rows-IsWellFormed
      no_rows-IsWellFormed

-- The seventh statement meets a fault, behind the deletion of the rejections: it is to delete
-- the file.
abbrev fails_late : Database
fails_late = record calm {
  now = 172801000;
  fault = λ n. if n == 6 then some (failed "OperationalError") else none;
}

abbrev at_start : Store → Session
at_start store = record { store = store; statements = 0 }

handle-IsWellFormed_example :
    IsWellFormed
      (session_of (handle ⦃db = fails_late⦄ 30 (some 1) false (at_start one_upload))).store
handle-IsWellFormed_example =
    handle-IsWellFormed ⦃db = fails_late⦄ 30 (some 1) false (at_start one_upload)
      one_upload-IsWellFormed

abbrev refused_file : RejectionRow
refused_file = record {
  upload_token = none;
  received_bytes = 3;
  reason = "invalid_json";
  status_code = 400;
  created_at = 5;
  line_number = none;
}

abbrev old_rows : Store
old_rows = record no_rows { rejections = refused_file ∷ [] }

handle-IsFresh_example :
    Ends ⦃db = days_later⦄
      (FreshOr ⦃db = days_later⦄ 1 old_rows)
      (λ _. Unit)
      (handle ⦃db = days_later⦄ 1 none false (at_start old_rows))
handle-IsFresh_example = handle-IsFresh ⦃db = days_later⦄ 1 none (at_start old_rows)

delete_files_lem_example :
    Deleted ⦃db = days_later⦄
      (1 ∷ [])
      one_upload
      (delete_files ⦃db = days_later⦄ (1 ∷ []) (at_start one_upload))
delete_files_lem_example = delete_files_lem ⦃db = days_later⦄ (1 ∷ []) (at_start one_upload)

abbrev pruned_rows : Run Command → ℕ
pruned_rows (went_on (pruned files rejections groups) s) = files + rejections
pruned_rows _ = 0

old_rows_pruned : pruned_rows (handle ⦃db = days_later⦄ 1 none false (at_start old_rows)) ≡ 1
unfolding handle write
old_rows_pruned = refl

abbrev old_file : ℕ → FileRow
old_file id = record {
  id = id;
  upload_token = none;
  uploaded_by = none;
  content_type = "";
  file_sha256 = "";
  byte_size = 0;
  raw_text = "";
  is_valid = false;
  validation_error = "";
  source = [];
  metadata = record {
    total_line_count = 0;
    valid_event_count = 0;
    invalid_event_count = 0;
    first_line_number = none;
    last_line_number = none;
    first_seq = none;
    last_seq = none;
    first_wall_time_ms = none;
    last_wall_time_ms = none;
    account_refs = [];
    engine_ids = [];
    group_refs = [];
    schema_versions = [];
    audit_data_modes = [];
  };
  duplicate_event_count = 0;
  created_at = 5;
  groups = [];
}

-- On PostgreSQL, the statement that deletes the files is that of number 9, and VACUUM follows. A
-- fault before it leaves the files, one behind it does not bring them back.
abbrev two_files : Store
two_files = record no_rows { files = old_file 0 ∷ old_file 1 ∷ [] }

abbrev fails_at : ℕ → Database
fails_at k = record days_later {
  is_postgresql = true;
  lock_free = λ name. true;
  fault = λ n. if n == k then some (failed "OperationalError") else none;
}

abbrev ending : Run Command → Bool × ℕ
ending (went_on c s) = (true, length s.store.files)
ending (broke_off fault s) = (false, length s.store.files)

files_left :
    map
      (λ k. ending (handle ⦃db = fails_at k⦄ 1 none false (at_start two_files)))
      (0 ∷ 9 ∷ 10 ∷ 20 ∷ [])
    ≡ ((false, 2) ∷ (false, 2) ∷ (false, 0) ∷ (true, 0) ∷ [])
unfolding handle write
files_left = refl
