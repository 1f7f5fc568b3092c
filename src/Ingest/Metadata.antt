-- ===== src/Ingest/Metadata.antt =====
-- `file_metadata`, `body_source_metadata` and `file_local_member_ref` of forensics/ingest.py.
use Prim.Native.Char.{code}
use goggles.Ingest.Store.{FileMetadata}
use goggles.Base.Sort.{sorted_set}
use goggles.Env.{Env}
use goggles.Base.Text.{str_len, str_all, str_leb, nonempty, str_take}
use goggles.Json.{Fields, Value, null, obj, value_if_int, value_if_str, end}
use goggles.Upload.Parse.{ParsedLine}
use goggles.Base.Dict.{Dict}
use goggles.Base.{
  ℕ, ◌-◌, Char, String, ◌<>◌, Bool, ◌&&◌, ◌||◌, Option, none, some, List, [], ◌∷◌, map, leb,
  if◌then◌else◌, ◌==◌, length, is_empty, select, add, least, greatest, string_eq, nat_eq,
}
use goggles.Base.Dict
use goggles.Json.{get}
use goggles.Upload.Identity.{text_of}

-- line.normalized.get(field), where the column holds an integer.
abbrev pub int_of : String → ParsedLine → Option ℕ
int_of field line = value_if_int (Dict.get_or null field line.normalized)

abbrev pub cons_if_some : Option ℕ → List ℕ → List ℕ
cons_if_some none ns = ns
cons_if_some (some n) ns = n ∷ ns

unfoldable pub ints_of : String → List ParsedLine → List ℕ
ints_of field [] = []
ints_of field (line ∷ lines) = cons_if_some (int_of field line) (ints_of field lines)

-- sorted({line.normalized.get(field) for line in lines if line.normalized.get(field)})
unfoldable pub texts_of : String → List ParsedLine → List String
texts_of field lines = sorted_set str_leb (select (λ t. nonempty t) (map (text_of field) lines))

abbrev pub valid_lines_of : List ParsedLine → List ParsedLine
valid_lines_of lines = select (λ line. is_empty line.errors) lines

unfoldable pub file_metadata : List ParsedLine → FileMetadata
unfolding ints_of texts_of
file_metadata parsed_lines =
    let valid_lines = valid_lines_of parsed_lines in
    let line_numbers = map (λ (line : ParsedLine). line.line_number) parsed_lines in
    record {
      total_line_count = length parsed_lines;
      valid_event_count = length valid_lines;
      invalid_event_count = length parsed_lines - length valid_lines;
      first_line_number = least line_numbers;
      last_line_number = greatest line_numbers;
      first_seq = least (ints_of "seq" valid_lines);
      last_seq = greatest (ints_of "seq" valid_lines);
      first_wall_time_ms = least (ints_of "wall_time_ms" valid_lines);
      last_wall_time_ms = greatest (ints_of "wall_time_ms" valid_lines);
      account_refs = texts_of "account_ref" valid_lines;
      engine_ids = texts_of "engine_id" valid_lines;
      group_refs = texts_of "group_ref" valid_lines;
      schema_versions = texts_of "schema_version" parsed_lines;
      audit_data_modes = texts_of "audit_data_mode" valid_lines;
    }

abbrev pub fields_or_empty : Value → Fields
fields_or_empty (obj fs) = fs
fields_or_empty _ = end

-- line.normalized.get("context_source", {})
abbrev pub source_of : ParsedLine → Fields
source_of line = fields_or_empty (Dict.get_or null "context_source" line.normalized)

abbrev pub source_fields : List (String × ℕ)
source_fields =
    ("device_id", 255)
    ∷ ("hardware_model", 255)
    ∷ ("platform", 120)
    ∷ ("app_version", 120)
    ∷ ("upload_trigger", 160)
    ∷ []

-- result.setdefault(key, value)
abbrev pub set_default : String → String → Dict String String → Dict String String
set_default key value result = if Dict.has key result then result else Dict.put key value result

-- One source's pass over the fields; the schema lets them be texts only.
unfoldable pub note_source : Fields → List (String × ℕ) → Dict String String → Dict String String
note_source source [] result = result
note_source source ((key, limit) ∷ fields) result =
    let value = value_if_str (get key source) in
    note_source source fields (
      if nonempty value
      then set_default ("source_" <> key) (str_take limit value) result
      else result)

unfoldable pub note_sources : List Fields → Dict String String → Dict String String
unfolding note_source
note_sources [] result = result
note_sources (source ∷ sources) result =
    note_sources sources (note_source source source_fields result)

-- re.compile(r"[0-9a-f]{32}")
abbrev pub is_lower_hex : Char → Bool
is_lower_hex c = let n = code c in (leb b'0' n && leb n b'9') || (leb b'a' n && leb n b'f')

abbrev pub is_local_member_ref : String → Bool
is_local_member_ref ref = str_len ref == 32 && str_all is_lower_hex ref

module _ ⦃env : Env⦄ where
  -- The refs that differ and are not blank, in order of first appearance.
  unfoldable pub local_refs : List String → List Fields → List String
  local_refs seen [] = seen
  local_refs seen (source ∷ sources) =
      let ref = env.lower (value_if_str (get "local_member_ref" source)) in
      local_refs (if nonempty ref then add ref seen else seen) sources

  abbrev pub only_one : List String → String
  only_one (ref ∷ []) = ref
  only_one _ = ""

  abbrev pub ref_or_blank : String → String
  ref_or_blank ref = if is_local_member_ref ref then ref else ""

  unfoldable pub file_local_member_ref : List Fields → String
  unfolding local_refs
  file_local_member_ref sources = ref_or_blank (only_one (local_refs [] sources))

  unfoldable pub body_source_metadata : List ParsedLine → Dict String String
  unfolding note_sources file_local_member_ref
  body_source_metadata parsed_lines =
      let sources = map source_of parsed_lines in
      Dict.put "source_local_member_ref" (file_local_member_ref sources) (note_sources sources [])
