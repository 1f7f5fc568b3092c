-- ===== src/Ingest/Tables.antt =====
-- What ingestion reads of the tables and writes to them, a statement at a time: the look-up of a file,
-- the rows of an upload's events with the ids of their groups, and the changes of a row.
use goggles.Ingest.Groups.Key.{key_eq}
use goggles.Upload.Parse.{ParsedLine}
use goggles.Ingest.Duplicates.{StoredRow}
use goggles.Ingest.Values.{event_values, text_at}
use goggles.Ingest.Groups.{GroupKey, group_key_for_parsed_line}
use goggles.Ingest.Store.{EventRow, FileRow, Store, GroupRow}
use goggles.Base.Dict.{Dict}
use goggles.Base.{
  ℕ, suc, ◌+◌, String, Bool, ◌&&◌, Option, none, some, List, [], ◌∷◌, ◌++◌, map, if◌then◌else◌,
  ◌==◌, length, any, contains, add, string_eq, nat_eq, pair_eq,
}
use goggles.Base.Dict

-- AuditFile.objects.filter(file_sha256=file_sha256).first()
unfoldable pub first_file : String → List FileRow → Option FileRow
first_file file_sha256 [] = none
first_file file_sha256 (row ∷ rows) =
    let later = first_file file_sha256 rows in
    if row.file_sha256 == file_sha256 then some row else later

-- audit_file.save(...), and the link rows of audit_file.groups
unfoldable pub save_file : FileRow → List FileRow → List FileRow
save_file file rows = map (λ row. if row.id == file.id then file else row) rows

abbrev pub file_is_valid : ℕ → List FileRow → Bool
file_is_valid id rows = any (λ row. row.id == id && row.is_valid) rows

-- The query's view of the stored events.
abbrev pub stored_rows : List FileRow → List EventRow → List StoredRow
stored_rows files events =
    map
      (λ (event : EventRow). record {
        line_hash = event.line_hash;
        engine_id = text_at "engine_id" event;
        file_is_valid = file_is_valid event.audit_file_id files;
      })
      events

abbrev pub stored_rows_of : Store → List StoredRow
stored_rows_of store = stored_rows store.files store.events

abbrev pub id_of_key : Option GroupKey → Dict GroupKey GroupRow → Option ℕ
id_of_key none groups_by_key = none
id_of_key (some key) groups_by_key = elim (Dict.get key groups_by_key) [
  | none ↦ none
  | some row ↦ some row.id
]

abbrev pub group_id_of : String → Dict GroupKey GroupRow → ParsedLine → Option ℕ
group_id_of fallback_group_slug groups_by_key parsed =
    id_of_key (group_key_for_parsed_line parsed fallback_group_slug) groups_by_key

abbrev pub add_if_some : Option ℕ → List ℕ → List ℕ
add_if_some none ids = ids
add_if_some (some id) ids = add id ids

unfoldable pub group_ids_of : String → Dict GroupKey GroupRow → List ParsedLine → List ℕ
group_ids_of fallback_group_slug groups_by_key [] = []
group_ids_of fallback_group_slug groups_by_key (parsed ∷ lines) =
    add_if_some (group_id_of fallback_group_slug groups_by_key parsed)
      (group_ids_of fallback_group_slug groups_by_key lines)

-- The rows of bulk_create, with the ids that the sequence gives.
unfoldable pub event_rows :
    ℕ → ℕ → String → Dict GroupKey GroupRow → List ParsedLine → List EventRow
unfolding event_values
event_rows id file_id fallback_group_slug groups_by_key [] = []
event_rows id file_id fallback_group_slug groups_by_key (parsed ∷ lines) =
    event_values id file_id parsed (group_id_of fallback_group_slug groups_by_key parsed)
    ∷ event_rows (suc id) file_id fallback_group_slug groups_by_key lines

abbrev pub add_events : List EventRow → Store → Store
add_events rows store = record store {
  events = store.events ++ rows;
  next_event = store.next_event + length rows;
}

abbrev pub add_file : FileRow → Store → Store
add_file row store = record store {
  files = store.files ++ row ∷ [];
  next_file = suc store.next_file;
}

abbrev pub put_file : FileRow → Store → Store
put_file row store = record store { files = save_file row store.files }

abbrev pub structural_quarantine_errors : List String
structural_quarantine_errors =
    "audit log contains multiple engine_ids" ∷ "audit log contains multiple account_refs" ∷ []

abbrev pub with_count : List ℕ → Dict ℕ ℕ → GroupRow → GroupRow
with_count ids counts row =
    if contains row.id ids
    then record row { divergent_message_count = Dict.get_or 0 row.id counts }
    else row
