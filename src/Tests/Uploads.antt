-- ===== src/Tests/Uploads.antt =====
-- The theorems at work on a small upload: an environment with two lines that decode, and limits.
use goggles.Ingest.Groups.{group_slug_for_ref}
use goggles.Json.Depth.Balanced.{spell, max_json_nesting_depth-balanced, nested, done}
use goggles.Upload.Parse.Records.{records, parse_jsonl-records}
use goggles.Normalize.Storable.Rows.{normalize_event-IsWithinLimits}
use goggles.Upload.Identity.Common.{IsCommon, has_inconsistent_identity-IsCommon}
use goggles.Upload.Lines.Endings.{written, iter_jsonl_record_lines-written, ends_in_cr}
use goggles.Normalize.Storable.{IsWithinLimits}
use goggles.Upload.Validate.Accepted.{
  IsAcceptable, operational_codes, validate_upload-accepted, validate_upload-operational,
  line_notes, validate_upload-IsWithinLimits,
}
use goggles.Normalize.Columns.{
  columns, model_max_length, model_int_field_max, group_slug_max_length,
}
use goggles.Upload.Identity.{has_inconsistent_identity, mixed_from}
use goggles.Normalize.Kind.{normalize_kind}
use goggles.Normalize.Copy.{string_exceeds_model_limit, int_exceeds_model_limit}
use goggles.Normalize.Event.{
  normalize_event, schema_error_code, initial, bounded_str_or_empty, check_seq, check_wall_time,
  check_engine_id, check_group_ref, normalize_event_kind, normalize_context,
}
use goggles.Json.Depth.{max_json_nesting_depth, scan, scan_char, scan_plain, scan_string}
use goggles.Base.Dict
use goggles.Ingest.Groups.Slug.{group_slug_for_ref-le}
use goggles.Json.Load.{
  loads_audit_json, hooked, unique_from, max_json_nesting, is_strict, loads_audit_json_iff,
}
use goggles.Upload.Lines.{iter_jsonl_record_lines, split_lines, drop_cr}
use goggles.Base.Text.{str_len}
use goggles.Upload.Parse.{ParsedLine, parse_jsonl, line_too_long}
use goggles.Upload.Validate.{Verdict, validate_upload, accepted, rejected, first_error}
use goggles.Env.{Env, FieldType, positive_integer, positive_big_integer}
use goggles.Json.{Fields, Value, field, obj, has_key, str, end, int, value_if_str, value_if_int}
use goggles.Base.{
  ℕ, ◌≤◌, String, ◌≡◌, refl, ◌↔◌, Bool, true, false, ◌||◌, Option, none, some, List, [], ◌∷◌, ltb,
  if◌then◌else◌, ◌==◌, length, any, All, contains, string_eq, nat_eq,
}

abbrev line_text : String
line_text = "{\"schema_version\": \"marmot-forensics-audit/v4\", \"engine_id\": \"e\"}"

abbrev accepted_text : String
accepted_text = "{\"schema_version\": \"marmot-forensics-audit/v4\", \"engine_id\": \"e\"}\n"

abbrev kind_fields : Fields
kind_fields = field "type" (str "engine_context") (field "context" (obj end) end)

abbrev event_fields : Fields
event_fields = field "schema_version" (str "marmot-forensics-audit/v4") (
    field "recorder_session_id" (str "session") (
      field "seq" (int 1) (
        field "wall_time_ms" (int 5) (
          field "account_ref" (str "account")
            (field "engine_id" (str "engine") (field "kind" (obj kind_fields) end))))))

abbrev max_of : FieldType → Option ℕ
max_of positive_integer = some 2147483647
max_of positive_big_integer = some 9223372036854775807
max_of _ = none

abbrev has_kind : Value → Bool
has_kind (obj fs) = has_key "kind" fs
has_kind _ = false

instance abbrev pub small_env : Env
small_env = record {
  integer_field_max = max_of;
  event_validator = λ t. if t == "engine_context" then some has_kind else none;
  decode_json = λ s. if s == line_text then some (obj event_fields) else none;
  decode_utf8 = λ bytes. if length bytes == 3 then some accepted_text else none;
  utf8_size = λ s. str_len s;
  sha256_bytes = λ bytes. "digest";
  sha256_text = λ s. "digest";
  strip = λ s. s;
  lower = λ s. s;
  title = λ s. s;
  slugify = λ s. s;
  max_dump_bytes = 10;
  max_jsonl_line_bytes = 200;
  max_dump_records = 2;
}

abbrev pub upload : List ℕ
upload = 1 ∷ 2 ∷ 3 ∷ []

abbrev lines_of : Verdict → List ParsedLine
lines_of (accepted raw_text lines) = lines
lines_of (rejected code line_number) = []

abbrev upload_lines : List ParsedLine
unfolding validate_upload parse_jsonl iter_jsonl_record_lines split_lines drop_cr str_len
    loads_audit_json max_json_nesting_depth scan scan_char scan_plain scan_string hooked unique_from
    Dict.get Dict.put normalize_event schema_error_code initial bounded_str_or_empty
    string_exceeds_model_limit check_seq check_wall_time check_engine_id check_group_ref
    int_exceeds_model_limit normalize_event_kind normalize_context normalize_kind first_error
    has_inconsistent_identity mixed_from columns value_if_str value_if_int model_max_length
    model_int_field_max
upload_lines = lines_of (validate_upload upload)

upload_accepted : validate_upload upload ≡ accepted accepted_text upload_lines
unfolding validate_upload parse_jsonl iter_jsonl_record_lines split_lines drop_cr str_len
    loads_audit_json max_json_nesting_depth scan scan_char scan_plain scan_string hooked unique_from
    Dict.get Dict.put normalize_event schema_error_code initial bounded_str_or_empty
    string_exceeds_model_limit check_seq check_wall_time check_engine_id check_group_ref
    int_exceeds_model_limit normalize_event_kind normalize_context normalize_kind first_error
    has_inconsistent_identity mixed_from columns value_if_str value_if_int model_max_length
    model_int_field_max
upload_accepted = refl

abbrev oversized : List ℕ
oversized = 1 ∷ 2 ∷ 3 ∷ 4 ∷ 5 ∷ 6 ∷ 7 ∷ 8 ∷ 9 ∷ 10 ∷ 11 ∷ []

oversized_rejected : validate_upload oversized ≡ rejected "too_large" none
unfolding validate_upload
oversized_rejected = refl

validate_upload-accepted_example :
    (validate_upload upload ≡ accepted accepted_text upload_lines)
    ↔ IsAcceptable upload accepted_text upload_lines
validate_upload-accepted_example = validate_upload-accepted upload accepted_text upload_lines

validate_upload-operational_example : contains "too_large" operational_codes ≡ true
validate_upload-operational_example =
    validate_upload-operational oversized "too_large" none oversized_rejected

validate_upload-IsWithinLimits_example :
    (length upload_lines ≤ small_env.max_dump_records)
    × All (λ l. IsWithinLimits (line_notes l)) upload_lines
validate_upload-IsWithinLimits_example =
    validate_upload-IsWithinLimits upload accepted_text upload_lines upload_accepted

normalize_event-IsWithinLimits_example : IsWithinLimits (normalize_event event_fields)
normalize_event-IsWithinLimits_example = normalize_event-IsWithinLimits event_fields

loads_audit_json_example :
    (loads_audit_json small_env.decode_json line_text ≡ some (obj event_fields)) ↔ (
      (max_json_nesting_depth line_text ≤ max_json_nesting)
      × (small_env.decode_json line_text ≡ some (obj event_fields))
      × (is_strict (obj event_fields) ≡ true))
loads_audit_json_example = loads_audit_json_iff small_env.decode_json line_text (obj event_fields)

max_json_nesting_depth-balanced_example : max_json_nesting_depth "[{}]" ≡ 2
unfolding goggles.Json.Depth.Balanced.depth spell
max_json_nesting_depth-balanced_example =
    max_json_nesting_depth-balanced
      (nested "[" "]" refl refl (nested "{" "}" refl refl done done) done) "[{}]" refl

parse_jsonl-records_example : parse_jsonl accepted_text ≡ (
    if any line_too_long (iter_jsonl_record_lines accepted_text)
      || ltb small_env.max_dump_records (length (records 1 (iter_jsonl_record_lines accepted_text)))
    then none
    else some (records 1 (iter_jsonl_record_lines accepted_text)))
parse_jsonl-records_example = parse_jsonl-records accepted_text

iter_jsonl_record_lines-written_example :
    iter_jsonl_record_lines (written (("a", true) ∷ ("b", false) ∷ []) "c") ≡ "a" ∷ "b" ∷ "c" ∷ []
unfolding ends_in_cr
iter_jsonl_record_lines-written_example =
    iter_jsonl_record_lines-written (("a", true) ∷ ("b", false) ∷ []) "c"
      (record { no_lf = refl; no_cr = refl }, (record { no_lf = refl; no_cr = refl }, tt))
      (record { no_lf = refl; no_cr = refl })

has_inconsistent_identity-IsCommon_example : (has_inconsistent_identity upload_lines ≡ false) ↔ (
    ((engine : String) × IsCommon "engine_id" engine upload_lines)
    × ((account : String) × IsCommon "account_ref" account upload_lines))
has_inconsistent_identity-IsCommon_example = has_inconsistent_identity-IsCommon upload_lines

group_slug_for_ref-le_example : str_len (group_slug_for_ref "ab12") ≤ group_slug_max_length
group_slug_for_ref-le_example = group_slug_for_ref-le "ab12"
