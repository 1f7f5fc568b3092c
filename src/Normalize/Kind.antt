-- ===== src/Normalize/Kind.antt =====
-- `normalize_kind` of forensics/ingest.py: the members of an event's kind, by the kind's type.
-- Its cases stand in groups, and each is a block of the helpers of Copy.
use goggles.Base.{
  String, ◌<>◌, Bool, false, not, some, List, [], ◌∷◌, ◌++◌, if◌then◌else◌, ◌==◌, length, all,
  select, contains, string_eq,
}
use goggles.Base.Dict
use goggles.Env.{Env}
use goggles.Json.{
  Value, Fields, null, bool, int, arr, obj, get, items, is_none, has_key, value_if_str, is_hex,
}
use goggles.Normalize.Copy.{
  Norm, ◌>>◌, skip, fail, store, is_valid_message_id, message_id_requirement_label,
  copy_optional_str_list, copy_msg_id, copy_optional_msg_id, copy_digest, copy_optional_digest,
  copy_str, copy_optional_str, copy_int, copy_optional_int, copy_human_action_fields,
  copy_publish_fields, copy_outbound_messages,
}

-- `case "...":` and its block.
abbrev pub Case : Type 0
Case = String × Norm

-- The first case with the type's name; `case _: pass`.
unfoldable pub match_case : String → List Case → Norm
match_case event_type [] = skip
match_case event_type ((name, block) ∷ cases) =
    if name == event_type then block else match_case event_type cases

-- `if isinstance(value, dict): normalized[dest] = value`
abbrev pub store_object : Value → String → Norm
store_object (obj fs) dest = store dest (obj fs)
store_object _ dest = skip

abbrev pub with_object : Value → (Fields → Norm) → Norm
with_object (obj fs) block = block fs
with_object _ block = skip

-- `if normalized.get(field) not in allowed: errors.append(message)`
abbrev pub require_one_of : String → List String → String → Norm
require_one_of field allowed message s =
    if contains (value_if_str (Dict.get_or null field s.normalized)) allowed
    then s
    else fail message s

unfoldable pub store_list : Value → String → Norm
store_list null field = skip
store_list (arr vs) field = store field (arr vs)
store_list _ field = fail (field <> " must be a list when present")

unfoldable pub store_bool : Value → String → Norm
store_bool null field = skip
store_bool (bool b) field = store field (bool b)
store_bool _ field = fail (field <> " must be a boolean when present")

unfoldable pub require_bool : Value → String → Norm
require_bool (bool b) field = store field (bool b)
require_bool _ field = fail (field <> " must be a boolean")

-- `if not isinstance(value, list) or any(...): errors.append(message)`, here of a null too.
abbrev pub list_only : Value → (Value → Bool) → String → String → Norm
list_only (arr values) test dest message =
    if all test (items values) then store dest (arr values) else fail message
list_only _ test dest message = fail message

unfoldable pub store_welcome_ids : Fields → Norm
store_welcome_ids kind =
    if not (has_key "outbound_welcome_msg_ids" kind)
    then skip
    else list_only (get "outbound_welcome_msg_ids" kind) is_valid_message_id
        "outbound_welcome_msg_ids"
        ("outbound_welcome_msg_ids must be a list of " <> message_id_requirement_label)

unfoldable pub store_value_digest : Fields → Norm
store_value_digest value =
    let digest = get "digest" value in
    if is_none digest
    then skip
    else if is_hex (some 64) digest
    then store "payload_digest" digest
    else fail "value.digest must be 64 hex characters when present"

-- candidate.get("eligible") is True
abbrev pub is_eligible : Value → Bool
is_eligible (obj candidate) = elim (get "eligible" candidate) [ bool b ↦ b | _ ↦ false ]
is_eligible _ = false

abbrev pub peeler_outcomes : List String
peeler_outcomes =
    "success" ∷ "decrypt_failed" ∷ "stale_epoch" ∷ "malformed" ∷ "other" ∷ "invalid_signature"
    ∷ "wrong_recipient" ∷ []

abbrev pub fork_winners : List String
fork_winners = "candidate" ∷ "incumbent" ∷ "missing_snapshot" ∷ []

module _ ⦃env : Env⦄ (kind : Fields) where
  abbrev pub context_cases : List Case
  context_cases =
      ("recorder_started", copy_optional_str kind "recorder" "detail")
      ∷ (
        "audit_data_mode_changed",
        (copy_optional_str kind "new_mode" "outcome" >> copy_optional_str kind "reason" "reason"),
      )
      ∷ ("source_context", store_object (get "source" kind) "context_source")
      ∷ ("engine_context", store_object (get "context" kind) "context_engine")
      ∷ (
        "group_context",
        (store_object (get "context" kind) "context_group"
            >> copy_optional_str kind "reason" "reason"),
      )
      ∷ []

  unfoldable pub transport_received : Norm
  transport_received = do
    copy_optional_msg_id kind "msg_id" "msg_id"
    copy_optional_int kind "payload_len" "payload_len"
    copy_optional_digest kind "payload_digest"

  unfoldable pub ingest_entry : Norm
  ingest_entry = do
    copy_msg_id kind
    copy_str kind "envelope_kind" "envelope_kind"
    copy_int kind "payload_len"
    copy_digest kind "payload_digest"

  unfoldable pub ingest_outcome : Norm
  ingest_outcome = do
    copy_msg_id kind
    copy_str kind "outcome_kind" "outcome_kind"
    copy_optional_str kind "stale_reason" "stale_reason"
    copy_optional_int kind "epoch" "epoch"

  unfoldable pub ingest_error : Norm
  ingest_error = do
    copy_msg_id kind
    copy_str kind "error_kind" "outcome_kind"
    copy_optional_str kind "detail" "detail"

  unfoldable pub message_content_decoded : Norm
  message_content_decoded = do
    copy_msg_id kind
    copy_optional_str kind "artifact_kind" "target_kind"

  unfoldable pub recipient_expectation : Norm
  recipient_expectation = do
    copy_msg_id kind
    with_object (get "expectation" kind)
        (λ expectation. copy_optional_str expectation "artifact_kind" "target_kind")

  abbrev pub message_cases : List Case
  message_cases =
      ("transport_received", transport_received)
      ∷ ("ingest_entry", ingest_entry)
      ∷ ("ingest_outcome", ingest_outcome)
      ∷ ("ingest_error", ingest_error)
      ∷ ("message_content_decoded", message_content_decoded)
      ∷ ("recipient_expectation", recipient_expectation)
      ∷ []

  unfoldable pub send_entry : Norm
  send_entry = copy_str kind "intent_kind" "intent_kind"

  unfoldable pub send_outcome : Norm
  send_outcome = do
    copy_str kind "intent_kind" "intent_kind"
    copy_str kind "result_kind" "result_kind"
    copy_optional_msg_id kind "outbound_msg_id" "outbound_msg_id"
    copy_outbound_messages kind
    store_welcome_ids kind

  unfoldable pub send_error : Norm
  send_error = do
    copy_str kind "intent_kind" "intent_kind"
    copy_str kind "error_kind" "outcome_kind"
    copy_optional_str kind "detail" "detail"

  unfoldable pub create_group_entry : Norm
  create_group_entry = copy_optional_int kind "member_count" "human_action_target_count"

  unfoldable pub create_group_outcome : Norm
  create_group_outcome = do copy_str kind "result_kind" "result_kind"; copy_outbound_messages kind

  unfoldable pub create_group_error : Norm
  create_group_error = do
    copy_str kind "error_kind" "outcome_kind"
    copy_optional_str kind "detail" "detail"

  abbrev pub send_cases : List Case
  send_cases =
      ("send_entry", send_entry)
      ∷ ("send_outcome", send_outcome)
      ∷ ("send_error", send_error)
      ∷ ("create_group_entry", create_group_entry)
      ∷ ("create_group_outcome", create_group_outcome)
      ∷ ("create_group_error", create_group_error)
      ∷ []

  unfoldable pub publish_attempt : Norm
  publish_attempt = do
    copy_publish_fields kind
    copy_optional_str_list kind "relay_urls" "relay_urls"

  unfoldable pub publish_outcome : Norm
  publish_outcome = do
    copy_publish_fields kind
    copy_optional_str_list kind "accepted_relay_urls" "accepted_relay_urls"
    store_list (get "failed_relays" kind) "failed_relays"
    store_bool (get "met_required_acks" kind) "met_required_acks"

  unfoldable pub publish_failure : Norm
  publish_failure = do
    copy_publish_fields kind
    copy_optional_str kind "stage" "outcome_kind"
    copy_optional_str kind "reason" "reason"
    copy_optional_str kind "detail" "detail"
    copy_optional_str_list kind "relay_urls" "relay_urls"

  abbrev pub publish_cases : List Case
  publish_cases =
      ("human_action", copy_human_action_fields kind)
      ∷ ("publish_attempt", publish_attempt)
      ∷ ("publish_outcome", publish_outcome)
      ∷ ("publish_failure", publish_failure)
      ∷ []

  unfoldable pub epoch_state_changed : Norm
  epoch_state_changed = do
    copy_optional_str kind "previous_state" "outcome"
    copy_str kind "new_state" "new_state"
    copy_int kind "epoch"
    copy_str kind "reason" "reason"
    copy_optional_int kind "pending_ref" "pending_epoch"
    copy_optional_str kind "pending_kind" "pending_kind"

  unfoldable pub group_state_changed : Norm
  group_state_changed = do
    copy_int kind "epoch"
    copy_str kind "change_kind" "outcome_kind"
    copy_optional_msg_id kind "origin_commit_id" "outbound_msg_id"
    with_object (get "value" kind)
        (λ value. store_value_digest value >> copy_optional_int value "len" "payload_len")

  unfoldable pub epoch_confirmed : Norm
  epoch_confirmed = do
    copy_int kind "from_epoch"
    copy_int kind "to_epoch"
    copy_str kind "pending_kind" "pending_kind"
    copy_optional_msg_id kind "origin_commit_id" "outbound_msg_id"

  unfoldable pub epoch_rolled_back : Norm
  epoch_rolled_back = do
    copy_int kind "pending_epoch"
    copy_int kind "restored_epoch"
    copy_str kind "pending_kind" "pending_kind"

  unfoldable pub snapshot_created : Norm
  snapshot_created = do
    copy_str kind "snapshot_name" "snapshot_name"
    copy_int kind "source_epoch"
    copy_str kind "reason" "reason"

  abbrev pub epoch_cases : List Case
  epoch_cases =
      ("epoch_state_changed", epoch_state_changed)
      ∷ ("group_state_changed", group_state_changed)
      ∷ ("epoch_confirmed", epoch_confirmed)
      ∷ ("epoch_rolled_back", epoch_rolled_back)
      ∷ ("snapshot_created", snapshot_created)
      ∷ []

  unfoldable pub fork_resolution : Norm
  fork_resolution = do
    copy_int kind "source_epoch"
    copy_digest kind "candidate_digest"
    copy_optional_digest kind "incumbent_digest"
    copy_str kind "winner" "winner"
    require_one_of "winner" fork_winners "winner must be candidate, incumbent, or missing_snapshot"
    copy_optional_msg_id kind "invalidated_msg_id" "invalidated_msg_id"

  unfoldable pub convergence_run_state : Norm
  convergence_run_state = do
    copy_str kind "phase" "outcome"
    copy_optional_int kind "current_tip_epoch" "current_tip_epoch"
    copy_optional_str kind "reason" "reason"
    copy_optional_str kind "error_kind" "outcome_kind"

  -- The counts are those of the list, where there is one.
  unfoldable pub candidate_counts : Value → Norm
  candidate_counts (arr candidates) =
      store "candidate_count" (int (length (items candidates)))
      >> store "eligible_count" (int (length (select is_eligible (items candidates))))
  candidate_counts _ = copy_int kind "candidate_count" >> copy_int kind "eligible_count"

  unfoldable pub count_candidates : Norm
  unfolding candidate_counts
  count_candidates = candidate_counts (get "candidates" kind)

  unfoldable pub convergence_decision : Norm
  convergence_decision = do
    copy_int kind "current_tip_epoch"
    copy_int kind "max_rewind_commits"
    copy_optional_str kind "selected_branch_id" "selected_branch_id"
    copy_optional_int kind "selected_fork_epoch" "selected_fork_epoch"
    copy_optional_int kind "selected_tip_epoch" "selected_tip_epoch"
    count_candidates

  unfoldable pub peeler_outcome : Norm
  peeler_outcome = do
    copy_msg_id kind
    copy_str kind "outcome" "outcome"
    require_one_of "outcome" peeler_outcomes "outcome must be a known peeler outcome"
    require_bool (get "fallback_snapshot_used" kind) "fallback_snapshot_used"
    copy_optional_str kind "detail" "detail"

  unfoldable pub auto_commit_decision : Norm
  auto_commit_decision = do
    copy_str kind "proposal_kind" "proposal_kind"
    copy_str kind "decision" "decision"
    copy_optional_str kind "reason" "reason"

  unfoldable pub message_state_changed : Norm
  message_state_changed = do
    copy_msg_id kind
    copy_str kind "new_state" "new_state"
    copy_str kind "reason" "reason"

  unfoldable pub rejection : Norm
  rejection = do copy_msg_id kind; copy_str kind "reason" "reason"

  abbrev pub convergence_cases : List Case
  convergence_cases =
      ("fork_resolution", fork_resolution)
      ∷ ("convergence_run_state", convergence_run_state)
      ∷ ("convergence_decision", convergence_decision)
      ∷ ("peeler_outcome", peeler_outcome)
      ∷ ("auto_commit_decision", auto_commit_decision)
      ∷ ("message_state_changed", message_state_changed)
      ∷ ("rejection", rejection)
      ∷ []

  abbrev pub all_cases : List Case
  all_cases =
      context_cases
      ++ (message_cases ++ (send_cases ++ (publish_cases ++ (epoch_cases ++ convergence_cases))))

  unfoldable pub normalize_kind : String → Norm
  unfolding match_case transport_received ingest_entry ingest_outcome ingest_error
      message_content_decoded recipient_expectation send_entry send_outcome send_error
      create_group_entry create_group_outcome create_group_error publish_attempt publish_outcome
      publish_failure epoch_state_changed group_state_changed epoch_confirmed epoch_rolled_back
      snapshot_created fork_resolution convergence_run_state convergence_decision peeler_outcome
      auto_commit_decision message_state_changed rejection
  normalize_kind event_type = match_case event_type all_cases
