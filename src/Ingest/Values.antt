-- ===== src/Ingest/Values.antt =====
-- `event_values` of forensics/ingest.py with the field list of forensics/normalized_fields.py, and a
-- stored row as the analysis reads it.
use goggles.Ingest.Metadata.{fields_or_empty}
use goggles.Event.{AuditEvent}
use goggles.Base.Text.{join}
use goggles.Env.{FieldType}
use goggles.Ingest.Store.{EventRow}
use goggles.Json.{Fields, Value, arr, bool, null, obj, str, value_if_int, value_if_str, items}
use goggles.Upload.Parse.{ParsedLine}
use goggles.Normalize.Columns.{columns}
use goggles.Base.Dict.{Dict}
use goggles.Base.{
  ℕ, String, Bool, not, Option, none, some, List, [], ◌∷◌, map, length, is_empty, select, contains,
  string_eq,
}
use goggles.Base.Dict
use goggles.Upload.Identity.{text_of}

-- NON_NORMALIZED_AUDIT_EVENT_FIELDS, less the keys of the row itself.
abbrev pub non_normalized_audit_event_fields : List String
non_normalized_audit_event_fields =
    "line_number" ∷ "line_hash" ∷ "raw_line" ∷ "raw_event" ∷ "raw_kind" ∷ "raw_context"
    ∷ "parse_status" ∷ "validation_error" ∷ "schema_version" ∷ "recorder_session_id"
    ∷ "audit_data_mode" ∷ "seq" ∷ "wall_time_ms" ∷ "account_ref" ∷ "engine_id" ∷ "group_ref"
    ∷ "event_type" ∷ []

unfoldable pub persisted_normalized_fields : List String
unfolding columns
persisted_normalized_fields =
    map (λ (c : String × FieldType). c.0)
      (select (λ c. not (contains c.0 non_normalized_audit_event_fields)) columns)

abbrev pub value_of : String → ParsedLine → Value
value_of field parsed = Dict.get_or null field parsed.normalized

abbrev pub value_or_end : String → ParsedLine → Value
value_or_end field parsed = obj (fields_or_empty (value_of field parsed))

-- The values that every line with a JSON object has.
abbrev pub envelope_values : ParsedLine → Dict String Value
envelope_values parsed =
    ("raw_kind", value_or_end "raw_kind" parsed)
    ∷ ("raw_context", value_or_end "raw_context" parsed)
    ∷ ("schema_version", str (text_of "schema_version" parsed))
    ∷ ("recorder_session_id", str (text_of "recorder_session_id" parsed))
    ∷ ("audit_data_mode", str (text_of "audit_data_mode" parsed))
    ∷ ("seq", value_of "seq" parsed)
    ∷ ("wall_time_ms", value_of "wall_time_ms" parsed)
    ∷ ("account_ref", str (text_of "account_ref" parsed))
    ∷ ("engine_id", str (text_of "engine_id" parsed))
    ∷ ("group_ref", str (text_of "group_ref" parsed))
    ∷ ("event_type", str (text_of "event_type" parsed))
    ∷ []

abbrev pub put_if_some : String → Option Value → Dict String Value → Dict String Value
put_if_some field none values = values
put_if_some field (some v) values = Dict.put field v values

-- `if field in parsed.normalized: values[field] = parsed.normalized[field]`
unfoldable pub copy_normalized :
    List String → Dict String Value → Dict String Value → Dict String Value
copy_normalized [] normalized values = values
copy_normalized (field ∷ fields) normalized values =
    copy_normalized fields normalized (put_if_some field (Dict.get field normalized) values)

abbrev pub values_of : Option Fields → ParsedLine → Dict String Value
values_of none parsed = []
values_of (some event) parsed =
    copy_normalized persisted_normalized_fields parsed.normalized (envelope_values parsed)

-- The row but for its id.
unfoldable pub event_values : ℕ → ℕ → ParsedLine → Option ℕ → EventRow
unfolding copy_normalized persisted_normalized_fields
event_values id audit_file_id parsed group_id = record {
  id = id;
  group_id = group_id;
  audit_file_id = audit_file_id;
  line_number = parsed.line_number;
  line_hash = parsed.line_hash;
  raw_line = parsed.raw_line;
  raw_event = parsed.event_data;
  parse_is_valid = is_empty parsed.errors;
  validation_error = join "; " parsed.errors;
  values = values_of parsed.event_data parsed;
}

-- The columns of a row: a text column's default is "", a list's [], an integer's and a flag's null.
abbrev pub text_at : String → EventRow → String
text_at field row = value_if_str (Dict.get_or null field row.values)

abbrev pub int_at : String → EventRow → Option ℕ
int_at field row = value_if_int (Dict.get_or null field row.values)

abbrev pub bool_if_bool : Value → Option Bool
bool_if_bool (bool b) = some b
bool_if_bool _ = none

abbrev pub list_if_list : Value → List Value
list_if_list (arr vs) = items vs
list_if_list _ = []

abbrev pub texts_at : String → EventRow → List String
texts_at field row = map value_if_str (list_if_list (Dict.get_or null field row.values))

unfoldable pub audit_event_of : EventRow → AuditEvent
audit_event_of row = record {
  id = row.id;
  group_id = row.group_id;
  audit_file_id = row.audit_file_id;
  line_number = row.line_number;
  event_type = text_at "event_type" row;
  engine_id = text_at "engine_id" row;
  account_ref = text_at "account_ref" row;
  wall_time_ms = int_at "wall_time_ms" row;
  seq = int_at "seq" row;
  msg_id = text_at "msg_id" row;
  outbound_msg_id = text_at "outbound_msg_id" row;
  invalidated_msg_id = text_at "invalidated_msg_id" row;
  outbound_welcome_msg_ids = texts_at "outbound_welcome_msg_ids" row;
  human_action_message_ids = texts_at "human_action_message_ids" row;
  human_action_action = text_at "human_action_action" row;
  human_action_origin = text_at "human_action_origin" row;
  human_action_phase = text_at "human_action_phase" row;
  human_action_fields = texts_at "human_action_fields" row;
  context_operation_id = text_at "context_operation_id" row;
  epoch = int_at "epoch" row;
  source_epoch = int_at "source_epoch" row;
  from_epoch = int_at "from_epoch" row;
  to_epoch = int_at "to_epoch" row;
  pending_epoch = int_at "pending_epoch" row;
  restored_epoch = int_at "restored_epoch" row;
  current_tip_epoch = int_at "current_tip_epoch" row;
  selected_tip_epoch = int_at "selected_tip_epoch" row;
  payload_digest = text_at "payload_digest" row;
  candidate_digest = text_at "candidate_digest" row;
  incumbent_digest = text_at "incumbent_digest" row;
  outcome = text_at "outcome" row;
  outcome_kind = text_at "outcome_kind" row;
  decision = text_at "decision" row;
  winner = text_at "winner" row;
  new_state = text_at "new_state" row;
  reason = text_at "reason" row;
  stale_reason = text_at "stale_reason" row;
  detail = text_at "detail" row;
  pending_kind = text_at "pending_kind" row;
  result_kind = text_at "result_kind" row;
  intent_kind = text_at "intent_kind" row;
  proposal_kind = text_at "proposal_kind" row;
  target_kind = text_at "target_kind" row;
  envelope_kind = text_at "envelope_kind" row;
  snapshot_name = text_at "snapshot_name" row;
  payload_len = int_at "payload_len" row;
  relay_urls = texts_at "relay_urls" row;
  accepted_relay_urls = texts_at "accepted_relay_urls" row;
  failed_relay_count = length (list_if_list (Dict.get_or null "failed_relays" row.values));
  required_acks = int_at "required_acks" row;
  met_required_acks = bool_if_bool (Dict.get_or null "met_required_acks" row.values);
  fallback_snapshot_used = bool_if_bool (Dict.get_or null "fallback_snapshot_used" row.values);
}
