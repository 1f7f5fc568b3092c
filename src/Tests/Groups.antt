-- ===== src/Tests/Groups.antt =====
-- Two engines' rows of one group, of which one engine misses a message while it is active.
use goggles.Base.Text.{str_leb}
use goggles.Analysis.Messages.{event_message_ids}
use goggles.Analysis.Activity.{was_active, trace_of-was_active}
use goggles.Analysis.Divergence.{engine_windows, is_divergent_message, engines_present_but_missing}
use goggles.Analysis.Parity.Groups.{rows_of, divergent_counts_for_group_ids-divergent_message_count}
use goggles.Analysis.Landing.{divergent_counts_for_group_ids}
use goggles.Analysis.Traces.{divergent_message_count, trace_of, engines_of, wall_times}
use goggles.Event.{AuditEvent}
use goggles.Base.{
  ℕ, String, ◌≡◌, refl, not, ◌&&◌, none, some, List, [], ◌∷◌, is_empty, any, contains, least,
  string_eq, nat_eq,
}
use goggles.Base.Dict

abbrev row_at : String → ℕ → String → AuditEvent
row_at engine_id wall_time_ms msg_id = record {
  id = wall_time_ms;
  group_id = some 7;
  audit_file_id = 1;
  line_number = 1;
  event_type = "message_state_changed";
  engine_id = engine_id;
  account_ref = "";
  wall_time_ms = some wall_time_ms;
  seq = none;
  msg_id = msg_id;
  outbound_msg_id = "";
  invalidated_msg_id = "";
  outbound_welcome_msg_ids = [];
  human_action_message_ids = [];
  human_action_action = "";
  human_action_origin = "";
  human_action_phase = "";
  human_action_fields = [];
  context_operation_id = "";
  epoch = none;
  source_epoch = none;
  from_epoch = none;
  to_epoch = none;
  pending_epoch = none;
  restored_epoch = none;
  current_tip_epoch = none;
  selected_tip_epoch = none;
  payload_digest = "";
  candidate_digest = "";
  incumbent_digest = "";
  outcome = "";
  outcome_kind = "";
  decision = "";
  winner = "";
  new_state = "";
  reason = "";
  stale_reason = "";
  detail = "";
  pending_kind = "";
  result_kind = "";
  intent_kind = "";
  proposal_kind = "";
  target_kind = "";
  envelope_kind = "";
  snapshot_name = "";
  payload_len = none;
  relay_urls = [];
  accepted_relay_urls = [];
  failed_relay_count = 0;
  required_acks = none;
  met_required_acks = none;
  fallback_snapshot_used = none;
}

abbrev pub group_rows : List AuditEvent
group_rows = row_at "a" 1 "m" ∷ row_at "b" 2 "n" ∷ row_at "a" 3 "k" ∷ row_at "b" 5 "m" ∷ []

group_rows_diverge : divergent_message_count group_rows ≡ 2
unfolding divergent_message_count event_message_ids Dict.put str_leb is_divergent_message Dict.get
    engines_present_but_missing least
group_rows_diverge = refl

divergent_counts_for_group_ids-divergent_message_count_example :
    Dict.get 7 (divergent_counts_for_group_ids (7 ∷ []) group_rows)
    ≡ some (divergent_message_count (rows_of 7 group_rows))
divergent_counts_for_group_ids-divergent_message_count_example =
    divergent_counts_for_group_ids-divergent_message_count (7 ∷ []) group_rows 7 refl refl
      (refl, (refl, (refl, (refl, tt))))

trace_of-was_active_example :
    (trace_of
      (engine_windows group_rows)
      (engines_of group_rows)
      ("n", row_at "b" 2 "n" ∷ [])).is_divergent
    ≡ (not (is_empty (engines_of (row_at "b" 2 "n" ∷ [])))
        && any
            (λ e.
              not (contains e (engines_of (row_at "b" 2 "n" ∷ [])))
              && was_active group_rows (least (wall_times (row_at "b" 2 "n" ∷ []))) e)
            (engines_of group_rows))
trace_of-was_active_example = trace_of-was_active group_rows (row_at "b" 2 "n" ∷ []) "n"
