-- ===== src/Analysis/Messages.antt =====
-- The ids that an event names, and the chains of fallbacks over its columns.
use goggles.Base.{ℕ, String, Option, none, some, List, [], ◌∷◌, ◌++◌, if◌then◌else◌, string_eq}
use goggles.Base.Text.{nonempty}
use goggles.Event.{AuditEvent}

-- `if value: ids.append(value)`
abbrev pub append_value : String → List String → List String
append_value value ids = if nonempty value then ids ++ value ∷ [] else ids

unfoldable pub event_message_id_values :
    String → String → String → List String → List String → List String
event_message_id_values msg_id outbound_msg_id invalidated_msg_id welcome_ids action_ids =
    append_value invalidated_msg_id (append_value outbound_msg_id (append_value msg_id []))
    ++ (welcome_ids ++ action_ids)

unfoldable pub event_message_ids : AuditEvent → List String
unfolding event_message_id_values
event_message_ids event =
    event_message_id_values event.msg_id event.outbound_msg_id event.invalidated_msg_id
      event.outbound_welcome_msg_ids event.human_action_message_ids

-- first_present(*values)
unfoldable pub first_present : List (Option ℕ) → Option ℕ
first_present [] = none
first_present (some value ∷ values) = some value
first_present (none ∷ values) = first_present values

unfoldable pub event_epoch : AuditEvent → Option ℕ
unfolding first_present
event_epoch event = first_present (
    event.epoch ∷ event.source_epoch ∷ event.to_epoch ∷ event.pending_epoch
    ∷ event.current_tip_epoch ∷ event.selected_tip_epoch ∷ [])

-- a or b or ... over texts: the first that is not blank, else the last.
unfoldable pub first_text : List String → String
first_text [] = ""
first_text (value ∷ []) = value
first_text (value ∷ next ∷ values) =
    let rest = first_text (next ∷ values) in if nonempty value then value else rest

unfoldable pub primary_outcome : AuditEvent → String
unfolding first_text
primary_outcome event =
    first_text
      (event.outcome ∷ event.outcome_kind ∷ event.decision ∷ event.winner ∷ event.new_state ∷ [])

unfoldable pub primary_reason : AuditEvent → String
unfolding first_text
primary_reason event =
    first_text (event.reason ∷ event.stale_reason ∷ event.detail ∷ event.pending_kind ∷ [])

unfoldable pub primary_digest : AuditEvent → String
unfolding first_text
primary_digest event =
    first_text (event.candidate_digest ∷ event.payload_digest ∷ event.incumbent_digest ∷ [])
