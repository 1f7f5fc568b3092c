-- ===== src/Upload/Parse.antt =====
-- `parse_jsonl` of forensics/ingest.py.
pub mod Records
use goggles.Base.{
  ℕ, suc, String, Bool, not, ◌||◌, Option, none, some, List, [], ◌∷◌, ltb, leb, if◌then◌else◌,
  nat_eq,
}
use goggles.Base.Text.{str_len, nonempty}
use goggles.Base.Dict.{Dict}
use goggles.Env.{Env}
use goggles.Json.{Value, Fields, obj}
use goggles.Json.Load.{loads_audit_json}
use goggles.Normalize.Event.{normalize_event}
use goggles.Upload.Lines.{iter_jsonl_record_lines}

pub record ParsedLine : Type 0 where
  pub line_number : ℕ
  pub raw_line : String
  pub line_hash : String
  pub event_data : Option Fields
  pub normalized : Dict String Value
  pub errors : List String

module _ ⦃env : Env⦄ where
  -- The data, normalized and errors of a line, from what `json.loads` gives.
  unfoldable pub line_of : ℕ → String → Option Value → ParsedLine
  line_of line_number raw_line (some (obj event)) =
      let notes = normalize_event event in
      record {
        line_number = line_number;
        raw_line = raw_line;
        line_hash = env.sha256_text raw_line;
        event_data = some event;
        normalized = notes.normalized;
        errors = notes.errors;
      }
  line_of line_number raw_line (some _) = record {
    line_number = line_number;
    raw_line = raw_line;
    line_hash = env.sha256_text raw_line;
    event_data = none;
    normalized = [];
    errors = "invalid_json_object" ∷ [];
  }
  line_of line_number raw_line none = record {
    line_number = line_number;
    raw_line = raw_line;
    line_hash = env.sha256_text raw_line;
    event_data = none;
    normalized = [];
    errors = "invalid_json" ∷ [];
  }

  unfoldable pub parse_line : ℕ → String → ParsedLine
  unfolding line_of
  parse_line line_number raw_line =
      line_of line_number raw_line (loads_audit_json env.decode_json raw_line)

  unfoldable pub line_too_long : String → Bool
  line_too_long raw_line =
      ltb env.max_jsonl_line_bytes (str_len raw_line)
      || ltb env.max_jsonl_line_bytes (env.utf8_size raw_line)

  abbrev pub also : ParsedLine → Option (List ParsedLine) → Option (List ParsedLine)
  also line none = none
  also line (some lines) = some (line ∷ lines)

  -- The loop from a line's number on, with `count` lines parsed already. `none` is the
  -- AuditLogComplexityError.
  unfoldable pub parse_from : ℕ → ℕ → List String → Option (List ParsedLine)
  unfolding parse_line line_too_long
  parse_from line_number count [] = some []
  parse_from line_number count (raw_line ∷ rest) =
      let blank = parse_from (suc line_number) count rest in
      let parsed =
        also (parse_line line_number (env.strip raw_line))
          (parse_from (suc line_number) (suc count) rest) in
      if line_too_long raw_line
      then none
      else if not (nonempty (env.strip raw_line))
      then blank
      else if leb env.max_dump_records count
      then none
      else parsed

  unfoldable pub parse_jsonl : String → Option (List ParsedLine)
  unfolding parse_from
  parse_jsonl raw_text = parse_from 1 0 (iter_jsonl_record_lines raw_text)
