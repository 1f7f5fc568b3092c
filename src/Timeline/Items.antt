-- ===== src/Timeline/Items.antt =====
-- `timeline_items` of forensics/analysis.py: an item per event, but one for a burst of retries.
pub mod Conserved
pub mod Ordered
use goggles.Base.Ordering.{sort_by}
use goggles.Base.Dict.{Dict}
use goggles.Env.{Env}
use goggles.Event.{AuditEvent}
use goggles.Base.{
  ℕ, suc, ◌/◌, String, Option, none, some, List, [], ◌∷◌, ◌++◌, if◌then◌else◌, length, pair_eq,
  nat_eq, string_eq,
}
use goggles.Base.Dict
use goggles.Timeline.Item.{
  timeline_item_for_event, TimelineItem, timeline_peeler_retry_burst_item,
  is_timeline_peeler_retry_event, place_leb, timeline_item_sort_key,
}

pub record Excluded : Type 0 where
  pub count : ℕ
  pub no_wall_time : ℕ
  pub no_engine : ℕ
  pub event_ids : List ℕ

-- What the first loop of timeline_items has gathered.
pub record Gathered : Type 0 where
  pub items : List TimelineItem
  pub excluded_ids : List ℕ
  pub no_wall_time : ℕ
  pub no_engine : ℕ
  pub peeler_bursts : Dict (ℕ × ℕ) (List AuditEvent)

abbrev pub exclude : AuditEvent → Gathered → Gathered
exclude event g = record g { excluded_ids = g.excluded_ids ++ event.id ∷ [] }

abbrev pub append_burst :
    ℕ × ℕ → AuditEvent → Dict (ℕ × ℕ) (List AuditEvent) → Dict (ℕ × ℕ) (List AuditEvent)
append_burst key event bursts = Dict.put key (Dict.get_or [] key bursts ++ event ∷ []) bursts

abbrev pub nothing_gathered : Gathered
nothing_gathered = record {
  items = [];
  excluded_ids = [];
  no_wall_time = 0;
  no_engine = 0;
  peeler_bursts = [];
}

module _ ⦃env : Env⦄ where
  -- One pass of the loop, by the event's time and engine.
  abbrev pub gather_at : Option ℕ → Option ℕ → Dict ℕ String → AuditEvent → Gathered → Gathered
  gather_at none engine roles event g = record (exclude event g) {
    no_wall_time = suc g.no_wall_time;
  }
  gather_at (some t) none roles event g = record (exclude event g) { no_engine = suc g.no_engine }
  gather_at (some t) (some engine) roles event g =
      if is_timeline_peeler_retry_event event
      then (record g { peeler_bursts = append_burst (engine, t / 1000) event g.peeler_bursts })
      else (record g { items = g.items ++ timeline_item_for_event event engine roles ∷ [] })

  unfoldable pub gather : Dict String ℕ → Dict ℕ String → List AuditEvent → Gathered → Gathered
  unfolding timeline_item_for_event
  gather engine_idx roles [] g = g
  gather engine_idx roles (event ∷ events) g =
      gather engine_idx roles events
        (gather_at event.wall_time_ms (Dict.get event.engine_id engine_idx) roles event g)

  -- A burst has an event, so the first clause is never met.
  abbrev pub burst_items : Dict String ℕ → Dict ℕ String → ℕ → List AuditEvent → List TimelineItem
  burst_items engine_idx roles engine [] = []
  burst_items engine_idx roles engine (event ∷ []) =
      timeline_item_for_event event (Dict.get_or 0 event.engine_id engine_idx) roles ∷ []
  burst_items engine_idx roles engine (event ∷ next ∷ events) =
      timeline_peeler_retry_burst_item (event ∷ next ∷ events) engine ∷ []

  unfoldable pub items_of_bursts :
      Dict String ℕ → Dict ℕ String → Dict (ℕ × ℕ) (List AuditEvent) → List TimelineItem
  unfolding timeline_item_for_event timeline_peeler_retry_burst_item
  items_of_bursts engine_idx roles [] = []
  items_of_bursts engine_idx roles (((engine, second), events) ∷ bursts) =
      burst_items engine_idx roles engine events ++ items_of_bursts engine_idx roles bursts

  unfoldable pub timeline_items :
      List AuditEvent → Dict String ℕ → Dict ℕ String → List TimelineItem × Excluded
  unfolding gather items_of_bursts sort_by
  timeline_items events engine_idx roles =
      let g = gather engine_idx roles events nothing_gathered in
      (
        sort_by (λ a b. place_leb (timeline_item_sort_key a) (timeline_item_sort_key b))
            (g.items ++ items_of_bursts engine_idx roles g.peeler_bursts),
        record {
          count = length g.excluded_ids;
          no_wall_time = g.no_wall_time;
          no_engine = g.no_engine;
          event_ids = g.excluded_ids;
        },
      )
