-- ===== src/Analysis/Parity/Messages.antt =====
-- What the pass keeps of each message against the events that the detail page files under it.
use goggles.Base.Dict.Entries.{
  map_values, IsDict, get_or-map_values, put-map_values, put-IsDict, get_or-put,
}
use goggles.Base.Text.{nonempty}
use goggles.Event.{AuditEvent}
use goggles.Analysis.Landing.{Tally, tally_message, tally_messages, lower, lower_by}
use goggles.Analysis.Traces.{engines_from, wall_times, engines_of, file_under}
use goggles.Base.Dict.{Dict}
use goggles.Base.{
  ℕ, min, String, ◌≡◌, refl, sym, ap, ◌∙◌, Bool, true, false, Option, none, some, List, [], ◌∷◌,
  ◌++◌, arith, if◌then◌else◌, ◌==◌, add, least, string_eq,
}
use goggles.Base.Dict

abbrev pub lowered : Option ℕ → Option ℕ → Option ℕ
lowered none current = current
lowered (some t) none = some t
lowered (some t) (some current) = some (min current t)

get-lower :
    (t : ℕ) (m j : String) (o : Option ℕ) (references : Dict String ℕ)
    → Dict.get m references ≡ o
    → Dict.get j (lower m t o references)
      ≡ (if m == j then lowered (some t) o else Dict.get j references)
get-lower t m j none references h = Dict.get-put m j t references
get-lower t m j (some current) references h =
    ground (arith, Dict.get-put m j t references, string_eq.same_iff m j)

get-lower_by :
    (w : Option ℕ) (m j : String) (references : Dict String ℕ)
    → Dict.get j (lower_by w m references)
      ≡ (if m == j then lowered w (Dict.get m references) else Dict.get j references)
get-lower_by none m j references = ground (arith, string_eq.same_iff m j)
get-lower_by (some t) m j references = get-lower t m j (Dict.get m references) references refl

engines_from-append :
    (events : List AuditEvent) (event : AuditEvent) (seen : List String)
    → nonempty event.engine_id ≡ true
    → engines_from seen (events ++ event ∷ []) ≡ add event.engine_id (engines_from seen events)
unfolding engines_from
engines_from-append [] event seen h = rw h refl
engines_from-append (x ∷ events) event seen h = engines_from-append events event _ h

least_time-append :
    (events : List AuditEvent) (event : AuditEvent)
    → least (wall_times (events ++ event ∷ []))
      ≡ lowered event.wall_time_ms (least (wall_times events))
unfolding wall_times least
least_time-append [] event = ground arith
least_time-append (x ∷ events) event = ground (arith, least_time-append events event)

least_time-if :
    (b : Bool) (events others : List AuditEvent) (event : AuditEvent)
    → least (wall_times (if b then events ++ event ∷ [] else others)) ≡ (
        if b
        then lowered event.wall_time_ms (least (wall_times events))
        else least (wall_times others))
least_time-if true events others event = least_time-append events event
least_time-if false events others event = refl

least_time-put :
    (event : AuditEvent) (m j : String) (by_msg : Dict String (List AuditEvent))
    → least
        (wall_times (Dict.get_or [] j (Dict.put m (Dict.get_or [] m by_msg ++ event ∷ []) by_msg)))
      ≡ (if m == j
          then lowered event.wall_time_ms (least (wall_times (Dict.get_or [] m by_msg)))
          else least (wall_times (Dict.get_or [] j by_msg)))
least_time-put event m j by_msg =
    ap (λ events. least (wall_times events))
      (get_or-put [] m j (Dict.get_or [] m by_msg ++ event ∷ []) by_msg)
    ∙ least_time-if (m == j) (Dict.get_or [] m by_msg) (Dict.get_or [] j by_msg) event

-- The tally's two dicts by message are those of the events filed under each message.
pub record Matches (tally : Tally) (by_msg : Dict String (List AuditEvent)) : Type 0 where
  pub observers : tally.message_engines ≡ map_values engines_of by_msg
  pub reference :
      (m : String) → Dict.get m tally.references ≡ least (wall_times (Dict.get_or [] m by_msg))
  pub is_dict : IsDict by_msg

tally_message-Matches :
    (event : AuditEvent) (m : String) (tally : Tally) (by_msg : Dict String (List AuditEvent))
    → nonempty event.engine_id ≡ true
    → Matches tally by_msg
    → Matches
        (tally_message event.engine_id event.wall_time_ms m tally)
        (Dict.put m (Dict.get_or [] m by_msg ++ event ∷ []) by_msg)
unfolding tally_message engines_of engines_from
tally_message-Matches event m tally by_msg full h = record {
  observers =
      ap (λ d. Dict.put m (add event.engine_id (Dict.get_or [] m d)) d) h.observers
      ∙ ap (λ seen. Dict.put m (add event.engine_id seen) (map_values engines_of by_msg))
          (get_or-map_values engines_of [] m by_msg)
      ∙ ap (λ seen. Dict.put m seen (map_values engines_of by_msg))
          (sym (engines_from-append (Dict.get_or [] m by_msg) event [] full))
      ∙ put-map_values engines_of m (Dict.get_or [] m by_msg ++ event ∷ []) by_msg;
  reference = λ j.
      get-lower_by event.wall_time_ms m j tally.references
      ∙ ap (λ o. if m == j then lowered event.wall_time_ms o else Dict.get j tally.references)
          (h.reference m)
      ∙ ap
          (λ o.
            if m == j
            then lowered event.wall_time_ms (least (wall_times (Dict.get_or [] m by_msg)))
            else o)
          (h.reference j)
      ∙ sym (least_time-put event m j by_msg);
  is_dict = put-IsDict m (Dict.get_or [] m by_msg ++ event ∷ []) by_msg h.is_dict;
}

pub tally_messages-Matches :
    (event : AuditEvent) (ids : List String) (tally : Tally)
    (by_msg : Dict String (List AuditEvent))
    → nonempty event.engine_id ≡ true
    → Matches tally by_msg
    → Matches
        (tally_messages event.engine_id event.wall_time_ms ids tally)
        (file_under event ids by_msg)
unfolding tally_messages file_under
tally_messages-Matches event [] tally by_msg full h = h
tally_messages-Matches event (m ∷ ids) tally by_msg full h =
    tally_messages-Matches event ids _ _ full (tally_message-Matches event m tally by_msg full h)

-- The messages of a row leave the engines and the windows as they are.
pub engines-tally_messages :
    (engine : String) (w : Option ℕ) (ids : List String) (tally : Tally)
    → (tally_messages engine w ids tally).engines ≡ tally.engines
unfolding tally_messages tally_message
engines-tally_messages engine w [] tally = refl
engines-tally_messages engine w (m ∷ ids) tally =
    engines-tally_messages engine w ids (tally_message engine w m tally)

pub windows-tally_messages :
    (engine : String) (w : Option ℕ) (ids : List String) (tally : Tally)
    → (tally_messages engine w ids tally).windows ≡ tally.windows
unfolding tally_messages tally_message
windows-tally_messages engine w [] tally = refl
windows-tally_messages engine w (m ∷ ids) tally =
    windows-tally_messages engine w ids (tally_message engine w m tally)
