-- ===== src/Event.antt =====
-- A stored AuditEvent row (forensics/models.py), with the columns that the analysis reads. A
-- nullable integer is an Option, a blank text is "", and a JSON list of texts is a list.
use goggles.Base.{ℕ, String, Bool, Option, List, string_eq}

pub record AuditEvent : Type 0 where
  pub id : ℕ
  pub group_id : Option ℕ
  pub audit_file_id : ℕ
  pub line_number : ℕ
  pub event_type : String
  pub engine_id : String
  pub account_ref : String
  pub wall_time_ms : Option ℕ
  pub seq : Option ℕ
  pub msg_id : String
  pub outbound_msg_id : String
  pub invalidated_msg_id : String
  pub outbound_welcome_msg_ids : List String
  pub human_action_message_ids : List String
  pub human_action_action : String
  pub human_action_origin : String
  pub human_action_phase : String
  pub human_action_fields : List String
  pub context_operation_id : String
  pub epoch : Option ℕ
  pub source_epoch : Option ℕ
  pub from_epoch : Option ℕ
  pub to_epoch : Option ℕ
  pub pending_epoch : Option ℕ
  pub restored_epoch : Option ℕ
  pub current_tip_epoch : Option ℕ
  pub selected_tip_epoch : Option ℕ
  pub payload_digest : String
  pub candidate_digest : String
  pub incumbent_digest : String
  pub outcome : String
  pub outcome_kind : String
  pub decision : String
  pub winner : String
  pub new_state : String
  pub reason : String
  pub stale_reason : String
  pub detail : String
  pub pending_kind : String
  pub result_kind : String
  pub intent_kind : String
  pub proposal_kind : String
  pub target_kind : String
  pub envelope_kind : String
  pub snapshot_name : String
  pub payload_len : Option ℕ
  pub relay_urls : List String
  pub accepted_relay_urls : List String
  -- len(event.failed_relays or [])
  pub failed_relay_count : ℕ
  pub required_acks : Option ℕ
  pub met_required_acks : Option Bool
  pub fallback_snapshot_used : Option Bool
