-- ===== src/Analysis/Traces.antt =====
-- `message_traces_from_events` of forensics/analysis.py, and the detail page's count.
use goggles.Base.Sort.{sorted_set}
use goggles.Base.{
  ℕ, String, Bool, not, Option, none, some, List, [], ◌∷◌, ◌++◌, map, if◌then◌else◌, length, select,
  contains, add, least, greatest, string_eq,
}
use goggles.Base.Dict
use goggles.Base.Dict.{Dict}
use goggles.Base.Text.{nonempty, str_leb}
use goggles.Event.{AuditEvent}
use goggles.Analysis.Messages.{event_message_ids}
use goggles.Analysis.Divergence.{engine_windows, engines_present_but_missing, is_divergent_message}

-- {event.engine_id for event in events if event.engine_id}, in order of first appearance
unfoldable pub engines_from : List String → List AuditEvent → List String
engines_from seen [] = seen
engines_from seen (event ∷ events) =
    engines_from (if nonempty event.engine_id then add event.engine_id seen else seen) events

unfoldable pub engines_of : List AuditEvent → List String
unfolding engines_from
engines_of events = engines_from [] events

-- [event.wall_time_ms for event in events if event.wall_time_ms is not None]
unfoldable pub wall_times : List AuditEvent → List ℕ
wall_times [] = []
wall_times (event ∷ events) = elim event.wall_time_ms [
  | none ↦ wall_times events
  | some t ↦ t ∷ wall_times events
]

-- `for msg_id in event_message_ids(event): by_msg[msg_id].append(event)`
unfoldable pub file_under :
    AuditEvent → List String → Dict String (List AuditEvent) → Dict String (List AuditEvent)
file_under event [] by_msg = by_msg
file_under event (msg_id ∷ ids) by_msg =
    file_under event ids (Dict.put msg_id (Dict.get_or [] msg_id by_msg ++ event ∷ []) by_msg)

unfoldable pub by_message_from :
    Dict String (List AuditEvent) → List AuditEvent → Dict String (List AuditEvent)
unfolding file_under
by_message_from by_msg [] = by_msg
by_message_from by_msg (event ∷ events) =
    by_message_from (file_under event (event_message_ids event) by_msg) events

pub record Trace : Type 0 where
  pub msg_id : String
  pub engines : List String
  pub missing_engines : List String
  pub missed_by : List String
  pub absent_engines : List String
  pub reference_ms : Option ℕ
  pub is_divergent : Bool
  pub event_types : List String
  pub states : List String
  pub first_wall_time_ms : Option ℕ
  pub last_wall_time_ms : Option ℕ
  pub event_count : ℕ

-- The texts of all events that are not blank.
unfoldable pub texts_from : (AuditEvent → List String) → List AuditEvent → List String
texts_from texts [] = []
texts_from texts (event ∷ events) = select nonempty (texts event) ++ texts_from texts events

abbrev pub event_types_of : List AuditEvent → List String
event_types_of events = texts_from (λ event. event.event_type ∷ []) events

abbrev pub states_of : List AuditEvent → List String
states_of events =
    texts_from (λ event. event.new_state ∷ event.outcome ∷ event.outcome_kind ∷ event.reason ∷ [])
      events

-- The loop's body for one message.
unfoldable pub trace_of : Dict String (ℕ × ℕ) → List String → String × List AuditEvent → Trace
unfolding engines_of wall_times texts_from sorted_set
trace_of windows all_engines (msg_id, events) =
    let observers = engines_of events in
    let reference_ms = least (wall_times events) in
    let missed_by = engines_present_but_missing observers reference_ms windows all_engines in
    let missing = select (λ e. not (contains e observers)) all_engines in
    record {
      msg_id = msg_id;
      engines = sorted_set str_leb observers;
      missing_engines = sorted_set str_leb missing;
      missed_by = sorted_set str_leb missed_by;
      absent_engines = sorted_set str_leb (select (λ e. not (contains e missed_by)) missing);
      reference_ms = reference_ms;
      is_divergent = is_divergent_message observers (observers ++ missed_by);
      event_types = sorted_set str_leb (event_types_of events);
      states = sorted_set str_leb (states_of events);
      first_wall_time_ms = reference_ms;
      last_wall_time_ms = greatest (wall_times events);
      event_count = length events;
    }

-- sorted(by_msg.items()): the keys differ, so the keys decide.
unfoldable pub insert_by_key {ℓ} : {A : Type ℓ} → String × A → List (String × A) → List (String × A)
insert_by_key kv [] = kv ∷ []
insert_by_key kv (x ∷ xs) = if str_leb kv.0 x.0 then kv ∷ x ∷ xs else x ∷ insert_by_key kv xs

unfoldable pub sorted_items {ℓ} : {A : Type ℓ} → List (String × A) → List (String × A)
unfolding insert_by_key
sorted_items [] = []
sorted_items (kv ∷ d) = insert_by_key kv (sorted_items d)

unfoldable pub message_traces_from_events : List AuditEvent → List String → List Trace
unfolding by_message_from sorted_items trace_of engine_windows
message_traces_from_events events all_engines =
    map (trace_of (engine_windows events) all_engines) (sorted_items (by_message_from [] events))

-- missing_observations_for_group, and group_integrity_summary's divergent_message_count
unfoldable pub missing_observations : List Trace → List Trace
missing_observations traces = select (λ trace. trace.is_divergent) traces

unfoldable pub divergent_message_count : List AuditEvent → ℕ
unfolding message_traces_from_events missing_observations engines_of
divergent_message_count events =
    length (missing_observations (message_traces_from_events events (engines_of events)))
