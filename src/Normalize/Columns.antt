-- ===== src/Normalize/Columns.antt =====
-- The columns of AuditEvent (forensics/models.py) and the limits that they set.
use goggles.Base.{ℕ, String, Bool, false, Option, none, some, [], ◌∷◌, ltb, string_eq}
use goggles.Base.Dict
use goggles.Base.Dict.{Dict}
use goggles.Env.{FieldType, char, text, positive_integer, positive_big_integer, boolean, json, Env}

-- AuditEvent's own columns, in the order of their declaration.
unfoldable pub columns : Dict String FieldType
columns =
    ("line_number", positive_integer)
    ∷ ("line_hash", char 64)
    ∷ ("raw_line", text)
    ∷ ("raw_event", json)
    ∷ ("raw_kind", json)
    ∷ ("raw_context", json)
    ∷ ("parse_status", char 16)
    ∷ ("validation_error", text)
    ∷ ("schema_version", char 80)
    ∷ ("recorder_session_id", char 160)
    ∷ ("audit_data_mode", char 80)
    ∷ ("seq", positive_big_integer)
    ∷ ("wall_time_ms", positive_big_integer)
    ∷ ("account_ref", char 64)
    ∷ ("engine_id", char 64)
    ∷ ("group_ref", text)
    ∷ ("event_type", char 80)
    ∷ ("context_operation_id", char 160)
    ∷ ("context_human_action", json)
    ∷ ("context_transport", json)
    ∷ ("context_engine", json)
    ∷ ("context_group", json)
    ∷ ("context_convergence", json)
    ∷ ("context_source", json)
    ∷ ("human_action_action", char 120)
    ∷ ("human_action_origin", char 80)
    ∷ ("human_action_phase", char 80)
    ∷ ("human_action_fields", json)
    ∷ ("human_action_component_ids", json)
    ∷ ("human_action_target_count", positive_integer)
    ∷ ("human_action_message_ids", json)
    ∷ ("msg_id", text)
    ∷ ("outbound_msg_id", text)
    ∷ ("outbound_welcome_msg_ids", json)
    ∷ ("target_kind", char 120)
    ∷ ("relay_urls", json)
    ∷ ("accepted_relay_urls", json)
    ∷ ("failed_relays", json)
    ∷ ("required_acks", positive_integer)
    ∷ ("met_required_acks", boolean)
    ∷ ("epoch", positive_big_integer)
    ∷ ("source_epoch", positive_big_integer)
    ∷ ("from_epoch", positive_big_integer)
    ∷ ("to_epoch", positive_big_integer)
    ∷ ("pending_epoch", positive_big_integer)
    ∷ ("restored_epoch", positive_big_integer)
    ∷ ("current_tip_epoch", positive_big_integer)
    ∷ ("selected_fork_epoch", positive_big_integer)
    ∷ ("selected_tip_epoch", positive_big_integer)
    ∷ ("payload_len", positive_big_integer)
    ∷ ("payload_digest", char 128)
    ∷ ("candidate_digest", char 128)
    ∷ ("incumbent_digest", char 128)
    ∷ ("envelope_kind", char 120)
    ∷ ("outcome", char 120)
    ∷ ("outcome_kind", char 120)
    ∷ ("stale_reason", char 160)
    ∷ ("decision", char 120)
    ∷ ("reason", char 240)
    ∷ ("winner", char 120)
    ∷ ("new_state", char 120)
    ∷ ("pending_kind", char 120)
    ∷ ("intent_kind", char 120)
    ∷ ("result_kind", char 120)
    ∷ ("proposal_kind", char 120)
    ∷ ("snapshot_name", char 256)
    ∷ ("selected_branch_id", char 256)
    ∷ ("detail", text)
    ∷ ("fallback_snapshot_used", boolean)
    ∷ ("invalidated_msg_id", text)
    ∷ ("max_rewind_commits", positive_big_integer)
    ∷ ("candidate_count", positive_integer)
    ∷ ("eligible_count", positive_integer)
    ∷ []

-- AuditEvent._meta.get_field(field).max_length
unfoldable pub max_length : FieldType → Option ℕ
max_length (char n) = some n
max_length _ = none

-- AuditGroup._meta.get_field("group_ref").max_length and that of "slug"
abbrev pub group_ref_max_length : ℕ
group_ref_max_length = 512

abbrev pub group_slug_max_length : ℕ
group_slug_max_length = 160

unfoldable pub model_max_length : String → Option ℕ
unfolding columns max_length
model_max_length field = elim (Dict.get field columns) [ none ↦ none | some t ↦ max_length t ]

unfoldable pub model_int_field_max : ⦃env : Env⦄ → String → Option ℕ
unfolding columns
model_int_field_max ⦃env⦄ field = elim (Dict.get field columns) [
  | none ↦ none
  | some t ↦ env.integer_field_max t
]

abbrev pub exceeds : Option ℕ → ℕ → Bool
exceeds none n = false
exceeds (some limit) n = ltb limit n
