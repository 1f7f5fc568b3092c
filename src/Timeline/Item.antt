-- ===== src/Timeline/Item.antt =====
-- An item of the timeline: `timeline_item_for_event`, `timeline_peeler_retry_burst_item` and their
-- helpers of forensics/analysis.py.

use goggles.Timeline.Summary.{
  peeler_warning_outcomes, deferred_message_states, event_tone, plural, primary_msg_id,
  action_label, relay_summary, event_summary, first_or_blank,
}
use goggles.Env.{Env}
use goggles.Analysis.Messages.{
  event_message_ids, event_epoch, primary_outcome, primary_reason, primary_digest, first_text,
}
use goggles.Base.Ordering.{sort_by}
use goggles.Base.Text.{nonempty, join, show}
use goggles.Event.{AuditEvent}
use goggles.Base.Dict.{Dict}
use goggles.Base.{
  ℕ, suc, ◌-◌, String, ◌<>◌, Bool, not, ◌&&◌, ◌||◌, Option, none, some, List, [], ◌∷◌, ◌++◌, map,
  ltb, leb, if◌then◌else◌, ◌==◌, length, take, contains, least, string_eq, nat_eq, nat_eq,
  string_eq,
}
use goggles.Base.Dict

-- A field that is "" or none is a key that compact_item drops, or that this sort of item lacks.
pub record TimelineItem : Type 0 where
  pub id : ℕ
  pub engine : ℕ
  pub t : ℕ
  pub line : ℕ
  pub seq : Option ℕ
  pub item_type : String
  pub tone : String
  pub role : String
  pub epoch : Option ℕ
  pub msg_id : String
  pub message_ids : List String
  pub message_count : Option ℕ
  pub event_count : Option ℕ
  pub source_event_ids : List ℕ
  pub related_key : String
  pub operation_id : String
  pub human_action : String
  pub human_action_label : String
  pub human_action_origin : String
  pub human_action_phase : String
  pub human_action_fields : List String
  pub target_kind : String
  pub relay_summary : String
  pub envelope_kind : String
  pub intent_kind : String
  pub result_kind : String
  pub proposal_kind : String
  pub snapshot_name : String
  pub payload_len : Option ℕ
  pub digest : String
  pub outcome : String
  pub outcome_summary : String
  pub reason : String
  pub summary : String
  pub file_id : ℕ

-- The keys by which the timeline sorts.
abbrev pub Place : Type 0
Place = ℕ × ℕ × ℕ

-- Whether the one place is not behind the other.
abbrev pub place_leb : Place → Place → Bool
place_leb (t, line, id) (u, other_line, other_id) =
    ltb t u || (t == u && (ltb line other_line || (line == other_line && leb id other_id)))

abbrev pub or_zero : Option ℕ → ℕ
or_zero none = 0
or_zero (some n) = n

abbrev pub place_of_event : AuditEvent → Place
place_of_event event = (or_zero event.wall_time_ms, event.line_number, event.id)

abbrev pub timeline_item_sort_key : TimelineItem → Place
timeline_item_sort_key item = (item.t, item.line, item.id)

abbrev pub is_timeline_peeler_retry_event : AuditEvent → Bool
is_timeline_peeler_retry_event event =
    (event.event_type == "peeler_outcome" && contains event.outcome peeler_warning_outcomes)
    || (event.event_type == "message_state_changed"
        && contains event.new_state deferred_message_states)

-- `seen` is `result`, in which each value stands once.
unfoldable pub unique_from : List String → List String → List String
unique_from result [] = result
unique_from result (value ∷ values) =
    unique_from
      (if not (nonempty value) || contains value result then result else result ++ value ∷ [])
      values

unfoldable pub unique_in_order : List String → List String
unfolding unique_from
unique_in_order values = unique_from [] values

-- Counter(value for value in values if value)
unfoldable pub count_values : Dict String ℕ → List String → Dict String ℕ
count_values counts [] = counts
count_values counts (value ∷ values) =
    count_values
      (if nonempty value then Dict.put value (suc (Dict.get_or 0 value counts)) counts else counts)
      values

abbrev pub count_part : String × ℕ → String
count_part (value, count) = if ltb 1 count then value <> (" x" <> show count) else value

unfoldable pub summarize_counts : List String → ℕ → String
unfolding count_values sort_by
summarize_counts values limit =
    let counts = count_values [] values in
    let most_common = sort_by (λ a b. leb b.1 a.1) counts in
    let parts = map count_part (take limit most_common) in
    join ", " (
      if ltb limit (length counts)
      then parts ++ ("+" <> (show (length counts - limit) <> " more")) ∷ []
      else parts)

abbrev pub all_message_ids : List AuditEvent → List String
all_message_ids [] = []
all_message_ids (event ∷ events) = event_message_ids event ++ all_message_ids events

abbrev pub first_or {ℓ} : {A : Type ℓ} → A → List A → A
first_or default [] = default
first_or default (x ∷ xs) = x

abbrev pub plural_of : ℕ → String → String
plural_of n word = show n <> (" " <> (word <> plural n))

unfoldable pub sorted_burst : List AuditEvent → List AuditEvent
unfolding sort_by
sorted_burst events = sort_by (λ a b. place_leb (place_of_event a) (place_of_event b)) events

unfoldable pub timeline_peeler_retry_burst_item : List AuditEvent → ℕ → TimelineItem
unfolding unique_in_order event_message_ids summarize_counts primary_outcome primary_reason
    sorted_burst
timeline_peeler_retry_burst_item events engine =
    let ordered = sorted_burst events in
    let message_ids = unique_in_order (all_message_ids ordered) in
    let message_count = length message_ids in
    let one_message = if message_count == 1 then first_or "" message_ids else "" in
    record {
      id = or_zero (least (map (λ (e : AuditEvent). e.id) ordered));
      engine = engine;
      t = first_or 0 (map (λ (e : AuditEvent). or_zero e.wall_time_ms) ordered);
      line = or_zero (least (map (λ (e : AuditEvent). e.line_number) ordered));
      seq = first_or none (map (λ (e : AuditEvent). e.seq) ordered);
      item_type = "peeler_retry_burst";
      tone = "warning";
      role = "";
      epoch = none;
      msg_id = one_message;
      message_ids = message_ids;
      message_count = some message_count;
      event_count = some (length ordered);
      source_event_ids = map (λ (e : AuditEvent). e.id) ordered;
      related_key = one_message;
      operation_id = "";
      human_action = "";
      human_action_label = "";
      human_action_origin = "";
      human_action_phase = "";
      human_action_fields = [];
      target_kind = "";
      relay_summary = "";
      envelope_kind = "";
      intent_kind = "";
      result_kind = "";
      proposal_kind = "";
      snapshot_name = "";
      payload_len = none;
      digest = "";
      outcome = "deferred";
      outcome_summary = summarize_counts (map primary_outcome ordered) 3;
      reason = summarize_counts (map primary_reason ordered) 3;
      summary =
          "peeler retry/defer burst · "
          <> (plural_of message_count "message" <> (" · " <> plural_of (length ordered) "event"));
      file_id = first_or 0 (map (λ (e : AuditEvent). e.audit_file_id) ordered);
    }

module _ ⦃env : Env⦄ where
  unfoldable pub timeline_item_for_event : AuditEvent → ℕ → Dict ℕ String → TimelineItem
  unfolding event_epoch event_message_ids event_tone primary_msg_id action_label relay_summary
      primary_digest primary_outcome primary_reason event_summary first_text
  timeline_item_for_event event engine roles = record {
    id = event.id;
    engine = engine;
    t = or_zero event.wall_time_ms;
    line = event.line_number;
    seq = event.seq;
    item_type = event.event_type;
    tone = event_tone event;
    role = Dict.get_or "" event.id roles;
    epoch = event_epoch event;
    msg_id = primary_msg_id event;
    message_ids = event_message_ids event;
    message_count = none;
    event_count = none;
    source_event_ids = [];
    related_key = first_text (
        event.msg_id
        ∷ event.outbound_msg_id
        ∷ first_or_blank event.human_action_message_ids
        ∷ event.candidate_digest
        ∷ event.payload_digest
        ∷ []);
    operation_id = event.context_operation_id;
    human_action = event.human_action_action;
    human_action_label = action_label event.human_action_action;
    human_action_origin = event.human_action_origin;
    human_action_phase = event.human_action_phase;
    human_action_fields = event.human_action_fields;
    target_kind = event.target_kind;
    relay_summary = relay_summary event;
    envelope_kind = event.envelope_kind;
    intent_kind = event.intent_kind;
    result_kind = event.result_kind;
    proposal_kind = event.proposal_kind;
    snapshot_name = event.snapshot_name;
    payload_len = event.payload_len;
    digest = primary_digest event;
    outcome = primary_outcome event;
    outcome_summary = "";
    reason = primary_reason event;
    summary = event_summary event;
    file_id = event.audit_file_id;
  }
