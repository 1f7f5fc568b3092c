-- ===== src/Tests/Timelines.antt =====
-- The timeline's theorems at work on a group's rows.
use goggles.Event.{AuditEvent}
use goggles.Base.Text.{nonempty}
use goggles.Timeline.Items.Ordered.{
  item_leb, timeline_items-IsSorted, is_left_out, is_untimed, is_strange,
}
use goggles.Timeline.Item.{unique_in_order}
use goggles.Base.Ordering.{IsSorted}
use goggles.Timeline.Unique.{IsUnique, unique_in_order-IsUnique}
use goggles.Timeline.Color.{color_index, viz_palette_size, unmasked_from, color_index_lem}
use goggles.Timeline.Items.{timeline_items}
use goggles.Timeline.Items.Conserved.{shown, occurrences, among_events, timeline_items-conserves}
use goggles.Base.Dict.{Dict}
use goggles.Base.{
  ℕ, ◌+◌, ◌%◌, ◌≤◌, String, ◌≡◌, ◌&&◌, [], ◌∷◌, map, length, select, contains, string_eq, nat_eq,
}
use goggles.Tests.Uploads.{small_env}
use goggles.Tests.Groups.{group_rows}

abbrev engine_numbers : Dict String ℕ
engine_numbers = ("a", 0) ∷ []

timeline_items-conserves_example :
    shown 3 (timeline_items group_rows engine_numbers []).0
      + occurrences 3 (timeline_items group_rows engine_numbers []).1.event_ids
    ≡ among_events 3 group_rows
timeline_items-conserves_example = timeline_items-conserves group_rows engine_numbers [] 3

timeline_items-IsSorted_example :
    let out = timeline_items group_rows engine_numbers [] in
    IsSorted item_leb out.0
    × (out.1.event_ids
        ≡ map (λ (e : AuditEvent). e.id) (select (is_left_out engine_numbers) group_rows))
    × (out.1.no_wall_time ≡ length (select is_untimed group_rows))
    × (out.1.no_engine ≡ length (select (is_strange engine_numbers) group_rows))
    × (out.1.count ≡ length (select (is_left_out engine_numbers) group_rows))
timeline_items-IsSorted_example = timeline_items-IsSorted group_rows engine_numbers []

color_index_lem_example :
    (1 ≤ color_index "engine")
    × (color_index "engine" ≤ viz_palette_size)
    × (color_index "engine" ≡ unmasked_from 0 "engine" % viz_palette_size + 1)
color_index_lem_example = color_index_lem "engine"

unique_in_order-IsUnique_example :
    IsUnique (unique_in_order ("m" ∷ "" ∷ "n" ∷ "m" ∷ []))
    × ((v : String)
        → contains v (unique_in_order ("m" ∷ "" ∷ "n" ∷ "m" ∷ []))
          ≡ (nonempty v && contains v ("m" ∷ "" ∷ "n" ∷ "m" ∷ [])))
unique_in_order-IsUnique_example = unique_in_order-IsUnique ("m" ∷ "" ∷ "n" ∷ "m" ∷ [])
