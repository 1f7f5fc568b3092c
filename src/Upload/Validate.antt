-- ===== src/Upload/Validate.antt =====
-- `validate_upload` and `UploadRejected` of forensics/ingest.py.
pub mod Accepted
use goggles.Base.{
  ℕ, String, Option, none, some, List, [], ◌∷◌, ltb, if◌then◌else◌, ◌==◌, length, is_empty,
  contains, nat_eq, string_eq,
}
use goggles.Env.{Env}
use goggles.Upload.Parse.{ParsedLine, parse_jsonl}
use goggles.Upload.Identity.{has_inconsistent_identity}

-- The outcome: the text and its lines, or the code and line number of an UploadRejected.
pub data Verdict : Type 0 where
  accepted : String → List ParsedLine → Verdict
  rejected : String → Option ℕ → Verdict

-- UploadRejected.status_code
unfoldable pub status_code : String → ℕ
status_code code =
    if contains code ("ingest_failed" ∷ "ingest_busy" ∷ [])
    then 503
    else if code == "too_large"
    then 413
    else 400

abbrev pub reportable : List String
reportable =
    "unsupported_schema" ∷ "invalid_v4_schema" ∷ "invalid_json_object" ∷ "invalid_json" ∷ []

abbrev pub reported_code : String → String
reported_code code = if contains code reportable then code else "storage_limit_exceeded"

abbrev pub report : List String → ℕ → Option (String × ℕ) → Option (String × ℕ)
report [] line_number later = later
report (code ∷ _) line_number later = some (reported_code code, line_number)

-- The first line with an error decides, by its first error.
unfoldable pub first_error : List ParsedLine → Option (String × ℕ)
first_error [] = none
first_error (line ∷ lines) = report line.errors line.line_number (first_error lines)

abbrev pub judge_identity : String → List ParsedLine → Option (String × ℕ) → Verdict
judge_identity raw_text lines (some (code, line_number)) = rejected code (some line_number)
judge_identity raw_text lines none =
    if has_inconsistent_identity lines
    then rejected "inconsistent_file_identity" none
    else accepted raw_text lines

-- The tests behind the parse.
unfoldable pub judge_lines : String → List ParsedLine → Verdict
unfolding first_error
judge_lines raw_text lines =
    if is_empty lines
    then rejected "empty_upload" none
    else judge_identity raw_text lines (first_error lines)

module _ ⦃env : Env⦄ where
  unfoldable pub judge_parsed : String → Option (List ParsedLine) → Verdict
  unfolding judge_lines
  judge_parsed raw_text none = rejected "processing_limit" none
  judge_parsed raw_text (some lines) = judge_lines raw_text lines

  unfoldable pub judge_text : Option String → Verdict
  unfolding judge_parsed
  judge_text none = rejected "invalid_utf8" none
  judge_text (some raw_text) = judge_parsed raw_text (parse_jsonl raw_text)

  unfoldable pub validate_upload : List ℕ → Verdict
  unfolding judge_text
  validate_upload dump_bytes =
      if ltb env.max_dump_bytes (length dump_bytes)
      then rejected "too_large" none
      else judge_text (env.decode_utf8 dump_bytes)
