-- ===== src/Timeline/Summary.antt =====
-- The texts and tones of an event: `action_label`, `secondary_action_label`, `relay_summary`,
-- `event_summary` and `event_tone` of forensics/analysis.py.
use goggles.Base.{
  ℕ, String, ◌<>◌, Bool, true, false, not, ◌&&◌, ◌||◌, Option, none, some, List, [], ◌∷◌, ltb,
  if◌then◌else◌, ◌==◌, length, is_empty, contains, nat_eq, string_eq,
}
use goggles.Analysis.Messages.{first_text}
use goggles.Base.Text.{show, join, str_take, nonempty}
use Prim.Native.Char.{code}
use goggles.Event.{AuditEvent}
use goggles.Env.{Env}

abbrev pub failed_message_states : List String
failed_message_states = "failed" ∷ "epoch_invalidated" ∷ []

abbrev pub deferred_message_states : List String
deferred_message_states = "peel_deferred" ∷ []

abbrev pub peeler_warning_outcomes : List String
peeler_warning_outcomes = "decrypt_failed" ∷ "stale_epoch" ∷ []

abbrev pub int_or_dash : Option ℕ → String
int_or_dash none = "-"
int_or_dash (some n) = show n

-- An integer column in a format string.
abbrev pub int_or_none : Option ℕ → String
int_or_none none = "None"
int_or_none (some n) = show n

abbrev pub is_present : Option ℕ → Bool
is_present none = false
is_present (some n) = true

-- (ids or [None])[0]; a missing id is "".
abbrev pub first_or_blank : List String → String
first_or_blank [] = ""
first_or_blank (id ∷ ids) = id

unfoldable pub primary_msg_id : AuditEvent → String
unfolding first_text
primary_msg_id event = first_text (
    event.msg_id
    ∷ event.outbound_msg_id
    ∷ event.invalidated_msg_id
    ∷ first_or_blank event.human_action_message_ids
    ∷ [])

unfoldable pub underscores_to_spaces : String → String
underscores_to_spaces String.[] = ""
underscores_to_spaces (String.◌∷◌ c s) =
    String.◌∷◌ (if code c == b'_' then " " else c) (underscores_to_spaces s)

abbrev pub is_true : Option Bool → Bool
is_true none = false
is_true (some b) = b

abbrev pub plural : ℕ → String
plural n = if n == 1 then "" else "s"

unfoldable pub relay_summary : AuditEvent → String
unfolding first_text
relay_summary event =
    if event.event_type == "publish_attempt"
    then (if is_empty event.relay_urls
        then ""
        else show (length event.relay_urls)
          <> (" target relay" <> plural (length event.relay_urls)))
    else if event.event_type == "publish_outcome"
    then show (length event.accepted_relay_urls)
      <> (" accepted, "
          <> (show event.failed_relay_count
              <> (" failed"
                  <> (if is_present event.required_acks
                      then " / " <> (int_or_none event.required_acks <> " required")
                      else ""))))
    else if event.event_type == "publish_failure"
    then (if is_empty event.relay_urls
        then first_text (event.reason ∷ event.detail ∷ [])
        else "failed on "
          <> (show (length event.relay_urls) <> (" relay" <> plural (length event.relay_urls))))
    else ""

abbrev pub part_if : Bool → String → List String → List String
part_if b part parts = if b then part ∷ parts else parts

unfoldable pub secondary_action_label : AuditEvent → String
secondary_action_label event = join " · " (
    part_if (nonempty event.human_action_origin) event.human_action_origin (
      part_if (nonempty event.human_action_phase) event.human_action_phase (
        part_if (not (is_empty event.human_action_fields)) (join ", " event.human_action_fields) (
          part_if (is_present event.from_epoch || is_present event.to_epoch)
            ("epoch " <> (int_or_dash event.from_epoch <> (" -> " <> int_or_dash event.to_epoch)))
            []))))

unfoldable pub event_tone : AuditEvent → String
event_tone event =
    let tone = if str_take 5 event.event_type == "send_" then "send" else "receive" in
    if event.event_type == "human_action"
    then (if event.human_action_origin == "local_user" then "send" else "receive")
    else if event.event_type == "publish_failure"
    then "error"
    else if event.event_type == "publish_outcome" && ltb 0 event.failed_relay_count
    then (if is_true event.met_required_acks then "send" else "error")
    else if event.event_type == "fork_resolution" || event.event_type == "convergence_decision"
    then "fork"
    else if event.event_type == "peeler_outcome"
    then (if contains event.outcome peeler_warning_outcomes
        then "warning"
        else if nonempty event.outcome && not (event.outcome == "success")
        then "error"
        else tone)
    else if event.event_type == "rejection"
    then "error"
    else if event.event_type == "message_state_changed"
    then (if contains event.new_state failed_message_states
        then "error"
        else if contains event.new_state deferred_message_states
        then "warning"
        else tone)
    else tone

module _ ⦃env : Env⦄ where
  unfoldable pub action_label : String → String
  unfolding underscores_to_spaces
  action_label value =
      if nonempty value then env.title (env.strip (underscores_to_spaces value)) else ""

  unfoldable pub event_summary : AuditEvent → String
  unfolding action_label secondary_action_label
  event_summary event =
      let kind = event.event_type in
      let label = action_label event.human_action_action in
      let suffix = secondary_action_label event in
      if kind == "human_action"
      then label <> (if nonempty suffix then " · " <> suffix else "")
      else if kind == "publish_attempt"
      then "publish attempt · "
        <> (show (length event.relay_urls) <> (" relay" <> plural (length event.relay_urls)))
      else if kind == "publish_outcome"
      then "publish outcome · "
        <> (show (length event.accepted_relay_urls)
            <> (" accepted / " <> (show event.failed_relay_count <> " failed")))
      else if kind == "publish_failure"
      then "publish failure" <> (if nonempty event.reason then " · " <> event.reason else "")
      else if nonempty event.human_action_action
      then kind <> (" · " <> label)
      else if kind == "fork_resolution"
      then event.winner <> (" at source epoch " <> int_or_none event.source_epoch)
      else if kind == "convergence_decision"
      then "tip "
        <> (int_or_none event.current_tip_epoch <> (" -> " <> int_or_dash event.selected_tip_epoch))
      else if kind == "epoch_confirmed"
      then "epoch " <> (int_or_none event.from_epoch <> (" -> " <> int_or_none event.to_epoch))
      else if kind == "epoch_rolled_back"
      then "rollback "
        <> (int_or_none event.pending_epoch <> (" -> " <> int_or_none event.restored_epoch))
      else if kind == "peeler_outcome"
      then event.outcome
        <> (if is_true event.fallback_snapshot_used then " with snapshot fallback" else "")
      else if kind == "message_state_changed"
      then event.msg_id <> (" -> " <> event.new_state)
      else if kind == "ingest_outcome"
      then event.outcome_kind <> (" epoch " <> int_or_dash event.epoch)
      else if kind == "send_outcome"
      then event.intent_kind <> (" -> " <> event.result_kind)
      else kind
