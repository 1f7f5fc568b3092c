-- ===== src/Streaming.antt =====
-- `stream_ndjson` of forensics/streaming.py: the lines of a bulk export.
pub mod Complete
use goggles.Base.Dict.{Dict}
use goggles.Base.{ℕ, suc, String, Option, none, some, List, [], ◌∷◌, ◌++◌, string_eq}
use goggles.Base.Dict

-- What json.dumps makes of a payload is outside: a line is its kind and what it holds.
pub data Line : Type 0 where
  manifest : Line
  row_line : String → String → Line
  eof : Dict String ℕ → Line
  error : Line

-- A row is its serialized payload; `none` is an exception, of the query or of the serializer.
pub record ExportSection : Type 0 where
  pub record_type : String
  pub rows : List (Option String)

abbrev pub yield_row : String → String → List Line × Option ℕ → List Line × Option ℕ
yield_row record_type payload (lines, count) = (row_line record_type payload ∷ lines, count)

-- The inner loop: the lines it yields, and the count, or an exception.
unfoldable pub stream_rows : String → ℕ → List (Option String) → List Line × Option ℕ
stream_rows record_type count [] = ([], some count)
stream_rows record_type count (none ∷ rows) = ([], none)
stream_rows record_type count (some payload ∷ rows) =
    yield_row record_type payload (stream_rows record_type (suc count) rows)

abbrev pub after_rows : Option ℕ → (ℕ → List Line) → List Line
after_rows none rest = error ∷ []
after_rows (some count) rest = rest count

unfoldable pub stream_sections : Dict String ℕ → List ExportSection → List Line
unfolding stream_rows
stream_sections counts [] = eof counts ∷ []
stream_sections counts (section ∷ sections) =
    let out = stream_rows section.record_type 0 section.rows in
    out.0
    ++ after_rows out.1
        (λ count. stream_sections (Dict.put section.record_type count counts) sections)

unfoldable pub stream_ndjson : List ExportSection → List Line
unfolding stream_sections
stream_ndjson sections = manifest ∷ stream_sections [] sections
