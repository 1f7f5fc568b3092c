-- ===== src/Normalize/Event.antt =====
-- `schema_error_code` of forensics/audit_schema.py, and `normalize_event` and `normalize_context`
-- of forensics/ingest.py.
use goggles.Base.{
  ℕ, String, ◌<>◌, Bool, not, Option, none, some, List, [], ◌∷◌, ◌++◌, ltb, if◌then◌else◌, ◌==◌,
  string_eq,
}
use goggles.Base.Text.{str_len, nonempty, show}
use goggles.Env.{Env}
use goggles.Json.{Value, Fields, null, int, str, obj, get, is_none, value_if_str, value_if_int}
use goggles.Normalize.Columns.{group_ref_max_length}
use goggles.Normalize.Copy.{
  Notes, Norm, ◌>>◌, skip, fail, store, string_exceeds_model_limit, int_exceeds_model_limit, unless,
  copy_context_str, copy_human_action_fields,
}
use goggles.Normalize.Kind.{normalize_kind}

abbrev pub schema_version : String
schema_version = "marmot-forensics-audit/v4"

abbrev pub max_wall_time_ms : ℕ
max_wall_time_ms = 4102444800000

module _ ⦃env : Env⦄ where
  abbrev pub kind_type : Value → Value
  kind_type (obj kind) = get "type" kind
  kind_type _ = null

  abbrev pub validator_for : Value → Option (Value → Bool)
  validator_for (str t) = env.event_validator t
  validator_for _ = none

  abbrev pub code_of : Option (Value → Bool) → Value → Option String
  code_of none event = some "invalid_v4_schema"
  code_of (some is_valid) event = if is_valid event then none else some "invalid_v4_schema"

  unfoldable pub schema_error_code : Value → Option String
  schema_error_code (obj event) =
      if not (value_if_str (get "schema_version" event) == schema_version)
      then some "unsupported_schema"
      else code_of (validator_for (kind_type (get "kind" event))) (obj event)
  schema_error_code _ = some "invalid_json_object"

-- bounded_str_or_empty: the text, and the message that is appended.
unfoldable pub bounded_str_or_empty : Value → String → String × Option String
bounded_str_or_empty (str value) field = elim (string_exceeds_model_limit field value) [
  | none ↦ (value, none)
  | some message ↦ ("", some message)
]
bounded_str_or_empty _ field = ("", none)

abbrev pub messages : Option String → List String
messages none = []
messages (some message) = message ∷ []

-- None or an int.
abbrev pub int_value : Option ℕ → Value
int_value none = null
int_value (some n) = int n

-- The dict that normalize_event starts from.
unfoldable pub initial : Fields → Notes
unfolding bounded_str_or_empty
initial event =
    let (version, version_error) =
      bounded_str_or_empty (get "schema_version" event) "schema_version" in
    let (session, session_error) =
      bounded_str_or_empty (get "recorder_session_id" event) "recorder_session_id" in
    record {
      normalized =
          ("schema_version", str version)
          ∷ ("recorder_session_id", str session)
          ∷ ("audit_data_mode", str "safe_only")
          ∷ ("seq", int_value (value_if_int (get "seq" event)))
          ∷ ("wall_time_ms", int_value (value_if_int (get "wall_time_ms" event)))
          ∷ ("account_ref", str (value_if_str (get "account_ref" event)))
          ∷ ("engine_id", str (value_if_str (get "engine_id" event)))
          ∷ ("group_ref", str (value_if_str (get "group_ref" event)))
          ∷ [];
      errors = messages version_error ++ messages session_error;
    }

-- Appends the message and overwrites the column, if there is one.
abbrev pub reset_if : Option String → String → Value → Norm
reset_if none field v = skip
reset_if (some message) field v = fail message >> store field v

-- `None` is skipped, and what is no dict is reported.
abbrev pub when_object : Value → (Fields → Norm) → Norm → Norm
when_object null write otherwise = skip
when_object (obj fs) write otherwise = write fs
when_object _ write otherwise = otherwise

module _ ⦃env : Env⦄ where
  unfoldable pub check_seq : Option ℕ → Norm
  check_seq none = fail "seq must be a non-negative integer"
  check_seq (some n) = reset_if (int_exceeds_model_limit "seq" "seq" n) "seq" null

  -- The branches behind the test of the column's own limit.
  abbrev pub time_limit : ℕ → Option String → Norm
  time_limit n (some message) = fail message >> store "wall_time_ms" null
  time_limit n none =
      if ltb max_wall_time_ms n
      then (fail (
            "wall_time_ms must be a non-negative integer within range (at most "
            <> (show max_wall_time_ms <> ")"))
          >> store "wall_time_ms" null)
      else skip

  unfoldable pub check_wall_time : Option ℕ → Norm
  check_wall_time none = fail "wall_time_ms must be a non-negative integer"
  check_wall_time (some n) = time_limit n (int_exceeds_model_limit "wall_time_ms" "wall_time_ms" n)

  unfoldable pub check_engine_id : String → Norm
  check_engine_id engine_id =
      reset_if (string_exceeds_model_limit "engine_id" engine_id) "engine_id" (str "")

  unfoldable pub check_group_ref : String → Norm
  check_group_ref group_ref =
      if ltb group_ref_max_length (str_len group_ref)
      then (fail "group_ref exceeds storage limit" >> store "group_ref" (str ""))
      else skip

  -- One pass of the loop over the snapshots of a context.
  unfoldable pub copy_snapshot : Fields → String → String → Norm
  copy_snapshot context source_field dest_field =
      when_object (get source_field context) (λ value. store dest_field (obj value))
        (fail ("context." <> (source_field <> " must be an object when present")))

  unfoldable pub copy_context_action : Value → Norm
  copy_context_action null = skip
  copy_context_action (obj action) = do
    store "context_human_action" (obj action)
    copy_human_action_fields action
  copy_context_action _ = fail "context.human_action must be an object when present"

  unfoldable pub normalize_context : Value → Norm
  unfolding copy_snapshot copy_context_action
  normalize_context null = skip
  normalize_context (obj context) = do
    store "raw_context" (obj context)
    if is_none (get "operation_id" context)
        then skip
        else copy_context_str context "operation_id" "context_operation_id"
    copy_context_action (get "human_action" context)
    copy_snapshot context "transport" "context_transport"
    copy_snapshot context "engine" "context_engine"
    copy_snapshot context "group" "context_group"
    copy_snapshot context "convergence" "context_convergence"
    copy_snapshot context "source" "context_source"
  normalize_context _ = fail "context must be an object when present"

  -- errors.extend(normalize_kind(event_type, kind, normalized))
  unfoldable pub extend_by_kind : String → Fields → Norm
  extend_by_kind event_type kind s =
      let t = normalize_kind kind event_type (record s { errors = [] }) in
      record t { errors = s.errors ++ t.errors }

  unfoldable pub normalize_event_kind : Value → Norm
  unfolding extend_by_kind
  normalize_event_kind (obj kind) =
      let event_type = value_if_str (get "type" kind) in
      store "raw_kind" (obj kind)
      >> (if not (nonempty event_type)
          then fail "kind.type must be a non-empty string"
          else unless (string_exceeds_model_limit "event_type" event_type)
              (store "event_type" (str event_type) >> extend_by_kind event_type kind))
  normalize_event_kind _ = fail "kind must be an object"

  -- The steps behind the schema test, in the source's order.
  unfoldable pub normalize_valid : Fields → Norm
  unfolding check_seq check_wall_time check_engine_id check_group_ref normalize_event_kind
  normalize_valid event = do
    check_seq (value_if_int (get "seq" event))
    check_wall_time (value_if_int (get "wall_time_ms" event))
    check_engine_id (value_if_str (get "engine_id" event))
    check_group_ref (value_if_str (get "group_ref" event))
    normalize_context (get "context" event)
    normalize_event_kind (get "kind" event)

  -- Behind the schema test: `if schema_error: return {}, [schema_error]`.
  unfoldable pub normalize_unless : Option String → Fields → Notes
  unfolding initial normalize_valid
  normalize_unless (some code) event = record { normalized = []; errors = code ∷ [] }
  normalize_unless none event = normalize_valid event (initial event)

  unfoldable pub normalize_event : Fields → Notes
  unfolding normalize_unless
  normalize_event event = normalize_unless (schema_error_code (obj event)) event
