-- ===== src/Ingest/Transaction/Kept.antt =====
-- Every upload keeps the store well-formed, whether it is stored, known already or refused.
use goggles.Ingest.Transaction.Archive.{archive, get-archive, archive-append}
use goggles.Ingest.Duplicates.Created.{created_lines-AllDiffer, created_lines-All}
use goggles.Upload.Validate.{Verdict, validate_upload, rejected, accepted}
use goggles.Ingest.Session.Post.{Post}
use goggles.Ingest.Transaction.Whole.{Stores, first_row, store_upload_lem, among}
use goggles.Ingest.Transaction.Apart.{
  HasEvent, row_key, line_key, row_key-event_rows, append-NoRepeat, line_key-NoRepeat, stored_keys,
}
use goggles.Upload.Parse.{ParsedLine}
use goggles.Ingest.Transaction.{
  Dump, ingest_audit_log_bytes, record_ingestion_rejection, after_conflict, unless_existing,
  conclude, ingest_judged,
}
use goggles.Ingest.Tables.{first_file, stored_rows, event_rows}
use goggles.Ingest.Session.{Database, Attempt, done, raised, failed, busy, locked, integrity}
use goggles.Env.{Env}
use goggles.Ingest.Store.{Store, FileRow}
use goggles.Base.{
  ℕ, String, ◌≡◌, refl, inl, inr, true, false, Option, none, some, List, [], ◌∷◌, ◌++◌, map, arith,
  Bool-cases, All, All-append, string_eq,
}
use goggles.Base.Dict
use goggles.Ingest.Transaction.Sound.{
  IsWellFormed, append-AreBelow, append-IsDict, Owned-append, own_rows, map-append,
  accepted-HasEvent,
}

same_tables :
    (s t : Store)
    → t.files ≡ s.files
    → t.events ≡ s.events
    → t.next_file ≡ s.next_file
    → IsWellFormed s
    → IsWellFormed t
same_tables s t f e n w = record {
  below = rw f (rw n w.below);
  hashes = rw f w.hashes;
  owned = rw f (rw e w.owned);
  apart = rw e w.apart;
}

module _ ⦃env : Env⦄ ⦃db : Database⦄ where
  stored-IsWellFormed :
      (dump : Dump) (raw_text : String) (lines : List ParsedLine) (s t : Store) (file : FileRow)
      → IsWellFormed s
      → All HasEvent lines
      → first_file (env.sha256_bytes dump.dump_bytes) s.files ≡ none
      → Stores dump raw_text lines s file t
      → IsWellFormed t
  stored-IsWellFormed dump raw_text lines s t file w held absent h =
      let first = first_row dump raw_text lines s in
      let new = (among dump raw_text lines s).0 in
      let (differ, fresh, count) =
        created_lines-AllDiffer lines true (stored_rows (s.files ++ first ∷ []) s.events) in
      let rows = event_rows s.next_event s.next_file dump.fallback_group_slug h.groups_by_key new in
      let keys : map row_key rows ≡ map line_key new =
        row_key-event_rows s.next_event s.next_file dump.fallback_group_slug h.groups_by_key new
          (created_lines-All HasEvent lines _ held) in
      let free : Dict.has (env.sha256_bytes dump.dump_bytes) (archive s.files) ≡ false =
        ground (arith, get-archive (env.sha256_bytes dump.dump_bytes) s.files, absent) in
      record {
        below =
            rw h.tables.files (
              rw h.tables.next_file (append-AreBelow s.next_file s.files file w.below h.renews.id));
        hashes = rw h.tables.files (
            rw (archive-append s.files file) (
              append-IsDict file.file_sha256 file.raw_text (archive s.files)
                (rw h.renews.file_sha256 free) w.hashes));
        owned = rw h.tables.files (
            rw h.tables.events (
              All-append _ s.events rows (Owned-append s.files file s.events w.owned) (
                own_rows s.next_file s.next_event dump.fallback_group_slug h.groups_by_key new
                  s.files file h.renews.id h.renews.is_valid)));
        apart = rw h.tables.events (
            rw (map-append row_key s.events rows) (
              rw keys (
                append-NoRepeat (map row_key s.events) (map line_key new) w.apart
                  (line_key-NoRepeat new differ)
                  (stored_keys (s.files ++ first ∷ []) s.events new
                    (Owned-append s.files first s.events w.owned) fresh))));
      }

  refusal-IsWellFormed :
      (dump : Dump) (code : String) (line_number : Option ℕ) (s : Store)
      → IsWellFormed s
      → IsWellFormed (record_ingestion_rejection dump code line_number s)
  unfolding record_ingestion_rejection
  refusal-IsWellFormed dump code line_number s w = elim (Bool-cases db.can_record) [
    | inl can ↦ rw can (same_tables s _ refl refl refl w)
    | inr cannot ↦ rw cannot w
  ]

  conflict-IsWellFormed :
      (dump : Dump) (o : Option FileRow) (s : Store)
      → IsWellFormed s
      → IsWellFormed (after_conflict dump o s).1
  conflict-IsWellFormed dump (some file) s w = w
  conflict-IsWellFormed dump none s w = refusal-IsWellFormed dump "ingest_failed" none s w

  conclude-IsWellFormed :
      (dump : Dump) (raw_text : String) (lines : List ParsedLine) (s : Store) (x : Attempt FileRow)
      → IsWellFormed s
      → IsWellFormed (db.others s)
      → All HasEvent lines
      → first_file (env.sha256_bytes dump.dump_bytes) s.files ≡ none
      → Post (λ file t. Stores dump raw_text lines s file t.store) x
      → IsWellFormed (conclude dump x s).1
  conclude-IsWellFormed dump raw_text lines s (done file t) w o held absent h =
      stored-IsWellFormed dump raw_text lines s t.store file w held absent h
  conclude-IsWellFormed dump raw_text lines s (raised busy) w o held absent h = o
  conclude-IsWellFormed dump raw_text lines s (raised locked) w o held absent h = o
  conclude-IsWellFormed dump raw_text lines s (raised integrity) w o held absent h =
      conflict-IsWellFormed dump _ (db.others s) o
  conclude-IsWellFormed dump raw_text lines s (raised (failed name)) w o held absent h =
      refusal-IsWellFormed dump "ingest_failed" none (db.others s) o

  -- An upload keeps the store well-formed, however it ends: the ids of the files are behind the
  -- sequence, no two files have one hash, each event is of a valid file, and no two events have
  -- both their line's hash and their engine in common. The other clients must keep it so too.
  pub ingest_audit_log_bytes-IsWellFormed :
      (dump : Dump) (s : Store)
      → IsWellFormed s
      → IsWellFormed (db.others s)
      → IsWellFormed (ingest_audit_log_bytes dump s).1
  unfolding ingest_audit_log_bytes
  ingest_audit_log_bytes-IsWellFormed dump s w o = judged (validate_upload dump.dump_bytes) refl
    where
      looked_up :
          (raw_text : String) (lines : List ParsedLine) (found : Option FileRow)
          → All HasEvent lines
          → first_file (env.sha256_bytes dump.dump_bytes) s.files ≡ found
          → IsWellFormed (unless_existing dump raw_text lines found s).1
      looked_up raw_text lines (some file) held e = w
      looked_up raw_text lines none held e =
          conclude-IsWellFormed dump raw_text lines s _ w o held e
            (store_upload_lem dump raw_text lines s 0 w.below)

      judged :
          (v : Verdict)
          → validate_upload dump.dump_bytes ≡ v
          → IsWellFormed (ingest_judged dump v s).1
      judged (rejected code line_number) e = refusal-IsWellFormed dump code line_number s w
      judged (accepted raw_text lines) e =
          looked_up raw_text lines _ (accepted-HasEvent dump.dump_bytes raw_text lines e) refl
