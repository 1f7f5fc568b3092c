-- ===== src/Ingest/Duplicates.antt =====
-- The duplicate test of `create_events` in forensics/ingest.py.
pub mod Created
use goggles.Base.Text.{nonempty}
use goggles.Upload.Identity.{text_of}
use goggles.Upload.Parse.{ParsedLine}
use goggles.Base.Dict.{Dict}
use goggles.Base.{
  ℕ, suc, String, Bool, true, false, not, ◌&&◌, ◌||◌, List, [], ◌∷◌, if◌then◌else◌, is_empty,
  select, contains, add, string_eq,
}
use goggles.Base.Dict

-- What the query for duplicates reads of a stored row.
pub record StoredRow : Type 0 where
  pub line_hash : String
  pub engine_id : String
  pub file_is_valid : Bool

-- `duplicates.setdefault(line_hash, set()).add(engine_id)`
abbrev pub note_engine : String → String → Dict String (List String) → Dict String (List String)
note_engine line_hash engine_id existing =
    Dict.put line_hash (add engine_id (Dict.get_or [] line_hash existing)) existing

abbrev pub line_hashes : List ParsedLine → List String
line_hashes [] = []
line_hashes (line ∷ lines) = add line.line_hash (line_hashes lines)

-- The rows that the query selects.
abbrev pub is_considered : List String → Bool → StoredRow → Bool
is_considered hashes ignore_invalid_files row =
    contains row.line_hash hashes && (not ignore_invalid_files || row.file_is_valid)

unfoldable pub note_rows : List StoredRow → Dict String (List String) → Dict String (List String)
note_rows [] existing = existing
note_rows (row ∷ rows) existing = note_rows rows (note_engine row.line_hash row.engine_id existing)

unfoldable pub existing_duplicate_events :
    List ParsedLine → Bool → List StoredRow → Dict String (List String)
unfolding note_rows
existing_duplicate_events lines ignore_invalid_files rows =
    note_rows (select (is_considered (line_hashes lines) ignore_invalid_files) rows) []

-- A dict's missing set and an empty set are both false.
unfoldable pub duplicate_event_exists : ParsedLine → Dict String (List String) → Bool
duplicate_event_exists parsed existing =
    let existing_engines = Dict.get_or [] parsed.line_hash existing in
    let engine_id = text_of "engine_id" parsed in
    if is_empty existing_engines
    then false
    else if nonempty engine_id
    then contains engine_id existing_engines
    else true

unfoldable pub remember_duplicate_event :
    ParsedLine → Dict String (List String) → Dict String (List String)
remember_duplicate_event parsed existing =
    note_engine parsed.line_hash (text_of "engine_id" parsed) existing

-- The loop of create_events: the lines that become rows, and the count of the others.
unfoldable pub created_lines : List ParsedLine → Dict String (List String) → List ParsedLine × ℕ
unfolding duplicate_event_exists remember_duplicate_event
created_lines [] existing = ([], 0)
created_lines (parsed ∷ lines) existing =
    let skipped = created_lines lines existing in
    let kept = created_lines lines (remember_duplicate_event parsed existing) in
    if duplicate_event_exists parsed existing
    then (skipped.0, suc skipped.1)
    else (parsed ∷ kept.0, kept.1)
