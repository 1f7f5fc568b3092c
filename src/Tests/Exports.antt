-- ===== src/Tests/Exports.antt =====
-- An export of two sections, one row of which fails.
use goggles.Streaming.Complete.{is_complete, is_some, is_complete-stream_ndjson}
use goggles.Streaming.{ExportSection, stream_ndjson, stream_sections, stream_rows}
use goggles.Base.{◌≡◌, refl, false, none, some, List, [], ◌∷◌, all, string_eq}

abbrev two_sections : List ExportSection
two_sections =
    record { record_type = "group"; rows = some "g" ∷ [] }
    ∷ record { record_type = "event"; rows = some "e" ∷ none ∷ [] }
    ∷ []

two_sections_fail : is_complete (stream_ndjson two_sections) ≡ false
unfolding stream_ndjson stream_sections stream_rows
two_sections_fail = refl

is_complete-stream_ndjson_example :
    is_complete (stream_ndjson two_sections)
    ≡ all (λ section. all is_some section.rows) two_sections
is_complete-stream_ndjson_example = is_complete-stream_ndjson two_sections
