-- ===== src/Tests/Rows.antt =====
-- A dump that repeats a line, over a store that holds another of its lines.
use goggles.Ingest.Batch.{
  audit_event_batch_size, bound_columns, postgres_max_bind_params, audit_event_batch_size-le,
}
use goggles.Ingest.Duplicates.Created.{AllDiffer, is_stored, created_lines-AllDiffer}
use goggles.Json.{str}
use goggles.Ingest.Duplicates.{StoredRow, created_lines, existing_duplicate_events}
use goggles.Upload.Parse.{ParsedLine}
use goggles.Base.{
  ℕ, ◌+◌, ◌*◌, ◌≤◌, String, ◌≡◌, Bool, true, false, none, List, [], ◌∷◌, arith, length, All,
  string_eq,
}

abbrev line_with : ℕ → String → ParsedLine
line_with line_number line_hash = record {
  line_number = line_number;
  raw_line = "";
  line_hash = line_hash;
  event_data = none;
  normalized = ("engine_id", str "engine") ∷ [];
  errors = [];
}

abbrev dump_lines : List ParsedLine
dump_lines = line_with 1 "a" ∷ line_with 2 "b" ∷ line_with 3 "a" ∷ line_with 4 "c" ∷ []

abbrev stored_rows : List StoredRow
stored_rows = record { line_hash = "b"; engine_id = "engine"; file_is_valid = true } ∷ []

created_lines-AllDiffer_example :
    let created =
      created_lines dump_lines (existing_duplicate_events dump_lines true stored_rows) in
    AllDiffer created.0
    × All (λ line. is_stored true stored_rows line ≡ false) created.0
    × (length created.0 + created.1 ≡ length dump_lines)
created_lines-AllDiffer_example = created_lines-AllDiffer dump_lines true stored_rows

abbrev event_columns : List (String × Bool)
event_columns = ("id", true) ∷ ("line_number", false) ∷ ("raw_line", false) ∷ []

audit_event_batch_size-le_example :
    (1 ≤ audit_event_batch_size event_columns)
    × (audit_event_batch_size event_columns * bound_columns event_columns
        ≤ postgres_max_bind_params)
audit_event_batch_size-le_example = audit_event_batch_size-le event_columns (omega arith)
