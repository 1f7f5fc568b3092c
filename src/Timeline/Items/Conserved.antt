-- ===== src/Timeline/Items/Conserved.antt =====
-- No event of a group is lost on the timeline, and none is shown twice.
use goggles.Env.{Env}
use goggles.Base.Dict.{Dict}
use goggles.Event.{AuditEvent}
use goggles.Timeline.Item.{
  TimelineItem, timeline_item_for_event, timeline_peeler_retry_burst_item, sorted_burst,
  is_timeline_peeler_retry_event, or_zero, place_leb, place_of_event, timeline_item_sort_key,
}
use goggles.Base.{
  ℕ, ◌+◌, ◌/◌, String, ◌≡◌, refl, ◌∙◌, inl, inr, false, Option, none, some, List, [], ◌∷◌, ◌++◌,
  map, arith, if◌then◌else◌, Bool-cases, ◌==◌, is_empty, least, pair_eq, nat_eq, string_eq,
}
use goggles.Base.Dict
use goggles.Timeline.Items.{
  Gathered, append_burst, gather, items_of_bursts, timeline_items, burst_items, gather_at,
  nothing_gathered,
}
use goggles.Base.Ordering.{total, total-append, sort_by, total-sort_by, is_empty-sort_by, total-map}

abbrev pub is_id : ℕ → ℕ → ℕ
is_id x id = if id == x then 1 else 0

-- How often the id stands in the list.
abbrev pub occurrences : ℕ → List ℕ → ℕ
occurrences x ids = total (is_id x) ids

-- The events that an item stands for: those that a burst names, or the one that it has its id from.
abbrev pub sources : TimelineItem → List ℕ
sources item = if is_empty item.source_event_ids then item.id ∷ [] else item.source_event_ids

abbrev pub shown : ℕ → List TimelineItem → ℕ
shown x items = total (λ item. occurrences x (sources item)) items

abbrev pub among_events : ℕ → List AuditEvent → ℕ
among_events x events = total (λ (event : AuditEvent). is_id x event.id) events

abbrev pub in_bursts : ℕ → Dict (ℕ × ℕ) (List AuditEvent) → ℕ
in_bursts x bursts = total (λ (b : (ℕ × ℕ) × List AuditEvent). among_events x b.1) bursts

in_bursts-put :
    (x : ℕ) (key : ℕ × ℕ) (events : List AuditEvent) (bursts : Dict (ℕ × ℕ) (List AuditEvent))
    → in_bursts x (Dict.put key events bursts) + among_events x (Dict.get_or [] key bursts)
      ≡ in_bursts x bursts + among_events x events
unfolding total Dict.get Dict.put
in_bursts-put x key events [] = omega arith
in_bursts-put x key events ((other, held) ∷ bursts) =
    ground (arith, in_bursts-put x key events bursts)

in_bursts-append_burst :
    (x : ℕ) (key : ℕ × ℕ) (event : AuditEvent) (bursts : Dict (ℕ × ℕ) (List AuditEvent))
    → in_bursts x (append_burst key event bursts) ≡ in_bursts x bursts + is_id x event.id
unfolding total
in_bursts-append_burst x key event bursts =
    let held = Dict.get_or [] key bursts in
    omega (
      arith,
      in_bursts-put x key (held ++ event ∷ []) bursts,
      total-append (λ (e : AuditEvent). is_id x e.id) held (event ∷ []),
    )

module _ ⦃env : Env⦄ where
  -- What of the events seen so far has been gathered.
  abbrev gathered : ℕ → Gathered → ℕ
  gathered x g = shown x g.items + (occurrences x g.excluded_ids + in_bursts x g.peeler_bursts)

  shown-append :
      (x : ℕ) (items : List TimelineItem) (event : AuditEvent) (engine : ℕ) (roles : Dict ℕ String)
      → shown x (items ++ timeline_item_for_event event engine roles ∷ [])
        ≡ shown x items + is_id x event.id
  unfolding total timeline_item_for_event
  shown-append x items event engine roles = omega (
    arith,
    total-append (λ item. occurrences x (sources item)) items
        (timeline_item_for_event event engine roles ∷ []),
  )

  occurrences-append :
      (x : ℕ) (ids : List ℕ) (id : ℕ)
      → occurrences x (ids ++ id ∷ []) ≡ occurrences x ids + is_id x id
  unfolding total
  occurrences-append x ids id = omega (arith, total-append (is_id x) ids (id ∷ []))

  gathered-gather_at :
      (x : ℕ) (time engine : Option ℕ) (roles : Dict ℕ String) (event : AuditEvent) (g : Gathered)
      → gathered x (gather_at time engine roles event g) ≡ gathered x g + is_id x event.id
  gathered-gather_at x none engine roles event g =
      omega (arith, occurrences-append x g.excluded_ids event.id)
  gathered-gather_at x (some t) none roles event g =
      omega (arith, occurrences-append x g.excluded_ids event.id)
  gathered-gather_at x (some t) (some engine) roles event g =
      elim (Bool-cases (is_timeline_peeler_retry_event event)) [
        | inl retry ↦
            rw retry
              (omega (arith, in_bursts-append_burst x (engine, t / 1000) event g.peeler_bursts))
        | inr other ↦ rw other (omega (arith, shown-append x g.items event engine roles))
      ]

  gathered-gather :
      (x : ℕ) (engine_idx : Dict String ℕ) (roles : Dict ℕ String) (events : List AuditEvent)
      (g : Gathered)
      → gathered x (gather engine_idx roles events g) ≡ gathered x g + among_events x events
  unfolding total gather
  gathered-gather x engine_idx roles [] g = omega arith
  gathered-gather x engine_idx roles (event ∷ events) g =
      let engine = Dict.get event.engine_id engine_idx in
      omega (
        arith,
        gathered-gather_at x event.wall_time_ms engine roles event g,
        gathered-gather x engine_idx roles events
            (gather_at event.wall_time_ms engine roles event g),
      )

  burst_item_lem :
      (x : ℕ) (event next : AuditEvent) (events : List AuditEvent) (engine : ℕ)
      → occurrences x (sources (timeline_peeler_retry_burst_item (event ∷ next ∷ events) engine))
        ≡ among_events x (event ∷ next ∷ events)
  unfolding timeline_peeler_retry_burst_item sorted_burst
  burst_item_lem x event next events engine =
      let le = λ (a b : AuditEvent). place_leb (place_of_event a) (place_of_event b) in
      named (sort_by le (event ∷ next ∷ events)) (is_empty-sort_by le event (next ∷ events))
      ∙ total-map (λ (e : AuditEvent). e.id) (is_id x) (sort_by le (event ∷ next ∷ events))
      ∙ total-sort_by le (λ (e : AuditEvent). is_id x e.id) (event ∷ next ∷ events)
    where
      named :
          (ordered : List AuditEvent)
          → is_empty ordered ≡ false
          → occurrences x (
              if is_empty (map (λ (e : AuditEvent). e.id) ordered)
              then or_zero (least (map (λ (e : AuditEvent). e.id) ordered)) ∷ []
              else map (λ (e : AuditEvent). e.id) ordered)
            ≡ occurrences x (map (λ (e : AuditEvent). e.id) ordered)
      named [] h = absurd (ground arith)
      named (e ∷ ordered) h = refl

  shown-burst_items :
      (x : ℕ) (engine_idx : Dict String ℕ) (roles : Dict ℕ String) (engine : ℕ)
      (events : List AuditEvent)
      → shown x (burst_items engine_idx roles engine events) ≡ among_events x events
  unfolding total timeline_item_for_event
  shown-burst_items x engine_idx roles engine [] = refl
  shown-burst_items x engine_idx roles engine (event ∷ []) = omega arith
  shown-burst_items x engine_idx roles engine (event ∷ next ∷ events) =
      omega (arith, burst_item_lem x event next events engine)

  shown-items_of_bursts :
      (x : ℕ) (engine_idx : Dict String ℕ) (roles : Dict ℕ String)
      (bursts : Dict (ℕ × ℕ) (List AuditEvent))
      → shown x (items_of_bursts engine_idx roles bursts) ≡ in_bursts x bursts
  unfolding total items_of_bursts
  shown-items_of_bursts x engine_idx roles [] = refl
  shown-items_of_bursts x engine_idx roles (((engine, second), events) ∷ bursts) = omega (
    arith,
    total-append (λ item. occurrences x (sources item)) (burst_items engine_idx roles engine events)
        (items_of_bursts engine_idx roles bursts),
    shown-burst_items x engine_idx roles engine events,
    shown-items_of_bursts x engine_idx roles bursts,
  )

  -- Each event is as often among the events that the items stand for and the excluded ones as it is
  -- among the events: none is lost, and none is shown twice or both shown and excluded.
  pub timeline_items-conserves :
      (events : List AuditEvent) (engine_idx : Dict String ℕ) (roles : Dict ℕ String) (x : ℕ)
      → let out = timeline_items events engine_idx roles in
        shown x out.0 + occurrences x out.1.event_ids ≡ among_events x events
  unfolding timeline_items total
  timeline_items-conserves events engine_idx roles x =
      let g = gather engine_idx roles events nothing_gathered in
      let le =
        λ (a b : TimelineItem). place_leb (timeline_item_sort_key a) (timeline_item_sort_key b) in
      let late = items_of_bursts engine_idx roles g.peeler_bursts in
      omega (
        arith,
        total-sort_by le (λ item. occurrences x (sources item)) (g.items ++ late),
        total-append (λ item. occurrences x (sources item)) g.items late,
        shown-items_of_bursts x engine_idx roles g.peeler_bursts,
        gathered-gather x engine_idx roles events nothing_gathered,
      )
