-- ===== src/Analysis/Parity/Rows.antt =====
-- The pass over the rows of one group, and the count that it ends in, against the traces.
use goggles.Analysis.Messages.{event_message_ids}
use goggles.Analysis.Parity.Messages.{
  Matches, engines-tally_messages, windows-tally_messages, tally_messages-Matches,
}
use goggles.Analysis.Divergence.{
  windows_from, window_step, engine_windows, is_divergent_message, engines_present_but_missing,
}
use goggles.Base.Text.{nonempty}
use goggles.Base.Dict.{Dict}
use goggles.Base.Dict.Entries.{map_values, get_or-some, get-IsDict}
use goggles.Analysis.Traces.{
  divergent_message_count, engines_from, insert_by_key, sorted_items, wall_times,
  message_traces_from_events, trace_of, by_message_from, missing_observations, engines_of,
}
use goggles.Analysis.Landing.{Tally, divergent_count, tally_row, counts_as_divergent, no_tally}
use goggles.Event.{AuditEvent}
use goggles.Base.{
  String, ◌≡◌, refl, sym, ap, ◌∙◌, Bool, true, List, [], ◌∷◌, ◌++◌, map, arith, length, select, All,
  All-map, least, string_eq,
}
use goggles.Base.Dict

-- Each row names its engine, as the schema demands.
abbrev pub NamesEngine : AuditEvent → Type 0
NamesEngine row = nonempty row.engine_id ≡ true

unfoldable pub rows_into : List AuditEvent → Tally → Tally
rows_into [] tally = tally
rows_into (row ∷ rows) tally = rows_into rows (tally_row row tally)

-- The tally after the rows of a group, against the detail page's three collections.
record Mirrors (after before : Tally) (by_msg : Dict String (List AuditEvent))
    (rows : List AuditEvent) : Type 0 where
  engines : after.engines ≡ engines_from before.engines rows
  windows : after.windows ≡ windows_from before.windows rows
  messages : Matches after (by_message_from by_msg rows)

tally_row-Mirrors :
    (row : AuditEvent) (tally : Tally) (by_msg : Dict String (List AuditEvent))
    → NamesEngine row
    → Matches tally by_msg
    → Mirrors (tally_row row tally) tally by_msg (row ∷ [])
unfolding tally_row engines_from windows_from window_step by_message_from
tally_row-Mirrors row tally by_msg full h = record {
  engines =
      rw full (engines-tally_messages row.engine_id row.wall_time_ms (event_message_ids row) _);
  windows =
      rw full (windows-tally_messages row.engine_id row.wall_time_ms (event_message_ids row) _);
  messages = rw full (
      tally_messages-Matches row (event_message_ids row) _ by_msg full
        (record { observers = h.observers; reference = h.reference; is_dict = h.is_dict }));
}

rows_into-Mirrors :
    (rows : List AuditEvent) (tally : Tally) (by_msg : Dict String (List AuditEvent))
    → All NamesEngine rows
    → Matches tally by_msg
    → Mirrors (rows_into rows tally) tally by_msg rows
unfolding rows_into engines_from windows_from by_message_from
rows_into-Mirrors [] tally by_msg full h = record { engines = refl; windows = refl; messages = h }
rows_into-Mirrors (row ∷ rows) tally by_msg (f, full) h =
    let one = tally_row-Mirrors row tally by_msg f h in
    let rest = rows_into-Mirrors rows (tally_row row tally) _ full one.messages in
    record {
      engines = rest.engines ∙ ap (λ seen. engines_from seen rows) one.engines;
      windows = rest.windows ∙ ap (λ w. windows_from w rows) one.windows;
      messages = rest.messages;
    }

select-map_values :
    {V W : Type 0} (f : V → W) (p : String × W → Bool) (q : String × V → Bool) (d : Dict String V)
    → All (λ kv. p (kv.0, f kv.1) ≡ q kv) d
    → length (select p (map_values f d)) ≡ length (select q d)
unfolding map_values
select-map_values f p q [] h = refl
select-map_values f p q (kv ∷ d) h = ground (arith, h.0, select-map_values f p q d h.1)

select-map :
    {A B : Type 0} (g : A → B) (q : B → Bool) (xs : List A)
    → length (select q (map g xs)) ≡ length (select (λ x. q (g x)) xs)
select-map g q [] = refl
select-map g q (x ∷ xs) = ground (arith, select-map g q xs)

select-insert_by_key :
    {A : Type 0} (q : String × A → Bool) (kv : String × A) (xs : List (String × A))
    → length (select q (insert_by_key kv xs)) ≡ length (select q (kv ∷ xs))
unfolding insert_by_key
select-insert_by_key q kv [] = refl
select-insert_by_key q kv (x ∷ xs) = ground (arith, select-insert_by_key q kv xs)

select-sorted_items :
    {A : Type 0} (q : String × A → Bool) (d : List (String × A))
    → length (select q (sorted_items d)) ≡ length (select q d)
unfolding sorted_items
select-sorted_items q [] = refl
select-sorted_items q (kv ∷ d) =
    select-insert_by_key q kv (sorted_items d) ∙ ground (arith, select-sorted_items q d)

divergent_count-Matches :
    (tally : Tally) (by_msg : Dict String (List AuditEvent))
    → Matches tally by_msg
    → divergent_count tally
      ≡ length (select (λ kv. (trace_of tally.windows tally.engines kv).is_divergent) by_msg)
unfolding divergent_count trace_of counts_as_divergent
divergent_count-Matches tally by_msg h =
    ap (λ d. length (select (counts_as_divergent tally) d)) h.observers
    ∙ select-map_values engines_of _ _ by_msg (
        All-map _ _ by_msg
          (λ kv found.
            ap
              (λ t. is_divergent_message (engines_of kv.1) (
                engines_of kv.1
                ++ engines_present_but_missing (engines_of kv.1) t tally.windows tally.engines))
              (h.reference kv.0
                ∙ ap (λ events. least (wall_times events)) (get_or-some [] kv.0 kv.1 by_msg found)))
          (get-IsDict by_msg h.is_dict))

no_tally-Matches : Matches no_tally []
unfolding Dict.get least wall_times map_values
no_tally-Matches = record { observers = refl; reference = λ m. refl; is_dict = tt }

-- Of the rows of one group, the pass counts as many divergent messages as the detail page.
pub divergent_count-rows_into :
    (rows : List AuditEvent)
    → All NamesEngine rows
    → divergent_count (rows_into rows no_tally) ≡ divergent_message_count rows
unfolding divergent_message_count message_traces_from_events missing_observations engines_of
    engine_windows
divergent_count-rows_into rows full =
    let h = rows_into-Mirrors rows no_tally [] full no_tally-Matches in
    let tally = rows_into rows no_tally in
    let by_msg = by_message_from [] rows in
    divergent_count-Matches tally by_msg h.messages
    ∙ ap (λ w. length (select (λ kv. (trace_of w tally.engines kv).is_divergent) by_msg)) h.windows
    ∙ ap (λ e. length (select (λ kv. (trace_of (windows_from [] rows) e kv).is_divergent) by_msg))
        h.engines
    ∙ sym (select-sorted_items _ by_msg)
    ∙ sym (select-map _ (λ trace. trace.is_divergent) (sorted_items by_msg))
