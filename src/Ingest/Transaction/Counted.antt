-- ===== src/Ingest/Transaction/Counted.antt =====
-- Each line of an upload is either a row or a counted duplicate.
use goggles.Ingest.Duplicates.Created.{created_lines-AllDiffer}
use goggles.Ingest.Transaction.Whole.{among, first_row}
use goggles.Ingest.Transaction.Stored.{AreBelow}
use goggles.Upload.Parse.{ParsedLine}
use goggles.Ingest.Store.{GroupRow, Store, FileRow}
use goggles.Ingest.Groups.{GroupKey}
use goggles.Ingest.Session.{Database}
use goggles.Base.Dict.{Dict}
use goggles.Env.{Env}
use goggles.Ingest.Transaction.{Dump, ingest_audit_log_bytes, created}
use goggles.Ingest.Tables.{event_rows, stored_rows}
use goggles.Base.{
  ℕ, suc, ◌+◌, String, ◌≡◌, refl, ap, ◌∙◌, true, List, [], ◌∷◌, ◌++◌, arith, length, length-append,
}
use goggles.Ingest.Transaction.Again.{ingest_audit_log_bytes-IsCreated}
use goggles.Ingest.Metadata.{file_metadata}

length-event_rows :
    (id file_id : ℕ) (fallback : String) (groups_by_key : Dict GroupKey GroupRow)
    (lines : List ParsedLine)
    → length (event_rows id file_id fallback groups_by_key lines) ≡ length lines
unfolding event_rows
length-event_rows id file_id fallback groups_by_key [] = refl
length-event_rows id file_id fallback groups_by_key (parsed ∷ lines) =
    ap suc (length-event_rows (suc id) file_id fallback groups_by_key lines)

module _ ⦃env : Env⦄ ⦃db : Database⦄ where
  -- If an upload creates a file, the events that the store gains and the duplicates that the file
  -- counts are together the lines that the file counts. The ids of the old files must be behind the
  -- sequence.
  pub ingest_audit_log_bytes-counts :
      (dump : Dump) (s t : Store) (file : FileRow)
      → AreBelow s.next_file s.files
      → ingest_audit_log_bytes dump s ≡ (created file, t)
      → length t.events + file.duplicate_event_count
        ≡ length s.events + file.metadata.total_line_count
  unfolding file_metadata
  ingest_audit_log_bytes-counts dump s t file below h =
      let c = ingest_audit_log_bytes-IsCreated dump s t file below h in
      let new = among dump c.raw_text c.lines s in
      let rows =
        event_rows s.next_event s.next_file dump.fallback_group_slug c.stores.groups_by_key new.0 in
      let split =
        created_lines-AllDiffer c.lines true
          (stored_rows (s.files ++ first_row dump c.raw_text c.lines s ∷ []) s.events) in
      let total : file.metadata.total_line_count ≡ length c.lines =
        ap (λ m. m.total_line_count) c.stores.renews.metadata in
      let events : length t.events ≡ length s.events + length rows =
        ap length c.stores.tables.events ∙ length-append s.events rows in
      ground (
        arith,
        events,
        total,
        c.stores.counted,
        split.2,
        length-event_rows s.next_event s.next_file dump.fallback_group_slug c.stores.groups_by_key
            new.0,
      )
