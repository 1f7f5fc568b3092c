-- ===== src/Env.antt =====
-- What the program takes from outside its repository: Django, the `jsonschema` validators, the
-- standard library's JSON parser, hash and text codecs, and the deployment's settings.
use goggles.Base.{ℕ, String, Bool, Option, List}
use goggles.Json.{Value}

-- The field classes of forensics/models.py that the normalizer asks about.
pub data FieldType : Type 0 where
  char : ℕ → FieldType
  text : FieldType
  positive_integer : FieldType
  positive_big_integer : FieldType
  boolean : FieldType
  json : FieldType

pub record Env : Type 0 where
  -- The upper end of BaseDatabaseOperations.integer_field_ranges, by the field's internal type.
  pub integer_field_max : FieldType → Option ℕ
  -- The validator of the branch of the v4 schema for a kind's type, if the schema has the branch.
  pub event_validator : String → Option (Value → Bool)
  -- The parse of json.loads before its hooks; `none` is a JSONDecodeError.
  pub decode_json : String → Option Value
  -- bytes.decode("utf-8"), and the length of str.encode("utf-8").
  pub decode_utf8 : List ℕ → Option String
  pub utf8_size : String → ℕ
  -- hashlib.sha256(...).hexdigest(), of bytes and of a text's UTF-8 bytes.
  pub sha256_bytes : List ℕ → String
  pub sha256_text : String → String
  -- str.strip(), str.lower(), str.title() and Django's slugify.
  pub strip : String → String
  pub lower : String → String
  pub title : String → String
  pub slugify : String → String
  -- settings.GOGGLES_MAX_DUMP_BYTES, GOGGLES_MAX_JSONL_LINE_BYTES, GOGGLES_MAX_DUMP_RECORDS.
  pub max_dump_bytes : ℕ
  pub max_jsonl_line_bytes : ℕ
  pub max_dump_records : ℕ
