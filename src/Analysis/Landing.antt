-- ===== src/Analysis/Landing.antt =====
-- `divergent_counts_for_group_ids` of forensics/analysis.py: one pass over the rows of all groups.
use goggles.Base.{
  ℕ, String, Bool, false, not, Option, none, some, List, [], ◌∷◌, ◌++◌, map, ltb, if◌then◌else◌,
  ◌==◌, length, select, contains, add, string_eq, nat_eq,
}
use goggles.Base.Dict
use goggles.Base.Dict.{Dict}
use goggles.Base.Text.{nonempty}
use goggles.Event.{AuditEvent}
use goggles.Analysis.Messages.{event_message_ids}
use goggles.Analysis.Divergence.{widen_by, engines_present_but_missing, is_divergent_message}

-- The four dicts of the pass, at one group's key.
pub record Tally : Type 0 where
  pub engines : List String
  pub windows : Dict String (ℕ × ℕ)
  pub message_engines : Dict String (List String)
  pub references : Dict String ℕ

abbrev pub no_tally : Tally
no_tally = record { engines = []; windows = []; message_engines = []; references = [] }

-- `if current is None or wall_time_ms < current: references[message_id] = wall_time_ms`
abbrev pub lower : String → ℕ → Option ℕ → Dict String ℕ → Dict String ℕ
lower message_id t none references = Dict.put message_id t references
lower message_id t (some current) references =
    if ltb t current then Dict.put message_id t references else references

abbrev pub lower_by : Option ℕ → String → Dict String ℕ → Dict String ℕ
lower_by none message_id references = references
lower_by (some t) message_id references =
    lower message_id t (Dict.get message_id references) references

unfoldable pub tally_message : String → Option ℕ → String → Tally → Tally
tally_message engine_id wall_time_ms message_id tally = record tally {
  message_engines =
      Dict.put message_id (add engine_id (Dict.get_or [] message_id tally.message_engines))
        tally.message_engines;
  references = lower_by wall_time_ms message_id tally.references;
}

unfoldable pub tally_messages : String → Option ℕ → List String → Tally → Tally
unfolding tally_message
tally_messages engine_id wall_time_ms [] tally = tally
tally_messages engine_id wall_time_ms (message_id ∷ ids) tally =
    tally_messages engine_id wall_time_ms ids
      (tally_message engine_id wall_time_ms message_id tally)

-- One row, at its group.
unfoldable pub tally_row : AuditEvent → Tally → Tally
unfolding tally_messages
tally_row row tally =
    if not (nonempty row.engine_id)
    then tally
    else tally_messages row.engine_id row.wall_time_ms (event_message_ids row) (record tally {
      engines = add row.engine_id tally.engines;
      windows = widen_by row.wall_time_ms row.engine_id tally.windows;
    })

-- The pass over the rows; a row of no group is not selected by the query.
unfoldable pub tally_at : Option ℕ → AuditEvent → Dict ℕ Tally → Dict ℕ Tally
unfolding tally_row
tally_at none row tallies = tallies
tally_at (some group_id) row tallies =
    Dict.put group_id (tally_row row (Dict.get_or no_tally group_id tallies)) tallies

unfoldable pub tally_rows : List AuditEvent → Dict ℕ Tally → Dict ℕ Tally
unfolding tally_at
tally_rows [] tallies = tallies
tally_rows (row ∷ rows) tallies = tally_rows rows (tally_at row.group_id row tallies)

-- Whether the message is counted.
unfoldable pub counts_as_divergent : Tally → String × List String → Bool
counts_as_divergent tally (message_id, observers) =
    let missing =
      engines_present_but_missing observers (Dict.get message_id tally.references) tally.windows
        tally.engines in
    is_divergent_message observers (observers ++ missing)

unfoldable pub divergent_count : Tally → ℕ
unfolding counts_as_divergent
divergent_count tally = length (select (counts_as_divergent tally) tally.message_engines)

-- list(dict.fromkeys(group_id for group_id in group_ids if group_id))
unfoldable pub distinct_ids : List ℕ → List ℕ → List ℕ
distinct_ids seen [] = seen
distinct_ids seen (group_id ∷ ids) =
    distinct_ids (if group_id == 0 then seen else add group_id seen) ids

-- The rows that the query selects: valid events of the groups.
abbrev pub in_groups : List ℕ → Option ℕ → Bool
in_groups ids none = false
in_groups ids (some group_id) = contains group_id ids

unfoldable pub divergent_counts_for_group_ids : List ℕ → List AuditEvent → Dict ℕ ℕ
unfolding distinct_ids tally_rows divergent_count
divergent_counts_for_group_ids group_ids rows =
    let ids = distinct_ids [] group_ids in
    let tallies = tally_rows (select (λ row. in_groups ids row.group_id) rows) [] in
    map (λ group_id. (group_id, divergent_count (Dict.get_or no_tally group_id tallies))) ids
