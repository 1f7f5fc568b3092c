-- ===== src/Timeline/Items/Ordered.antt =====
-- The order of the timeline, and its count of what is left out.
use goggles.Event.{AuditEvent}
use goggles.Base.Dict.{Dict}
use goggles.Timeline.Items.{
  Gathered, gather, timeline_items, gather_at, nothing_gathered, items_of_bursts,
}
use goggles.Env.{Env}
use goggles.Timeline.Summary.{is_present}
use goggles.Timeline.Item.{TimelineItem, is_timeline_peeler_retry_event}
use goggles.Base.{
  ℕ, suc, ◌+◌, String, ◌≡◌, refl, ap, ◌∙◌, inl, inr, Bool, true, false, not, ◌&&◌, ◌||◌, Option,
  none, some, List, [], ◌∷◌, ◌++◌, map, arith, ltb, leb, if◌then◌else◌, Bool-cases, ◌==◌, length,
  select, nat_eq, string_eq, pair_eq,
}
use goggles.Base.Dict
use goggles.Base.Ordering.{IsSorted, sort_by-IsSorted}

-- Earlier in time; at one time, on an earlier line; on one line, of no greater id.
abbrev pub item_leb : TimelineItem → TimelineItem → Bool
item_leb a b =
    ltb a.t b.t || (a.t == b.t && (ltb a.line b.line || (a.line == b.line && leb a.id b.id)))

item_leb_total : (a b : TimelineItem) → item_leb a b ≡ false → item_leb b a ≡ true
item_leb_total a b h = ground (arith, h)

item_leb_trans :
    (a b c : TimelineItem) → item_leb a b ≡ true → item_leb b c ≡ true → item_leb a c ≡ true
item_leb_trans a b c h k = ground (arith, h, k)

-- The events without a time, and those with one but of no engine that the timeline shows.
abbrev pub is_untimed : AuditEvent → Bool
is_untimed event = not (is_present event.wall_time_ms)

abbrev pub is_strange : Dict String ℕ → AuditEvent → Bool
is_strange engine_idx event =
    is_present event.wall_time_ms && not (is_present (Dict.get event.engine_id engine_idx))

abbrev pub is_left_out : Dict String ℕ → AuditEvent → Bool
is_left_out engine_idx event =
    not (is_present event.wall_time_ms && is_present (Dict.get event.engine_id engine_idx))

length-map : {A : Type 0} (f : A → ℕ) (xs : List A) → length (map f xs) ≡ length xs
length-map f [] = refl
length-map f (x ∷ xs) = ap suc (length-map f xs)

module _ ⦃env : Env⦄ where
  -- The exclusions of the events seen so far, behind those of before.
  record Accounts (engine_idx : Dict String ℕ) (events : List AuditEvent) (g h : Gathered)
      : Type 0 where
    untimed : h.no_wall_time ≡ g.no_wall_time + length (select is_untimed events)
    strange : h.no_engine ≡ g.no_engine + length (select (is_strange engine_idx) events)
    ids :
        h.excluded_ids
        ≡ g.excluded_ids ++ map (λ (e : AuditEvent). e.id) (select (is_left_out engine_idx) events)

  append_assoc : (xs ys zs : List ℕ) → (xs ++ ys) ++ zs ≡ xs ++ (ys ++ zs)
  append_assoc [] ys zs = refl
  append_assoc (x ∷ xs) ys zs = ap (λ r. x ∷ r) (append_assoc xs ys zs)

  append_nil : (xs : List ℕ) → xs ≡ xs ++ []
  append_nil [] = refl
  append_nil (x ∷ xs) = ap (λ r. x ∷ r) (append_nil xs)

  Accounts-trans :
      (engine_idx : Dict String ℕ) (event : AuditEvent) (events : List AuditEvent)
      (f g h : Gathered)
      → Accounts engine_idx (event ∷ []) f g
      → Accounts engine_idx events g h
      → Accounts engine_idx (event ∷ events) f h
  Accounts-trans engine_idx event events f g h a b = record {
    untimed = ground (arith, a.untimed, b.untimed);
    strange = ground (arith, a.strange, b.strange);
    ids =
        b.ids
        ∙ ap (λ r. r ++ map (λ (e : AuditEvent). e.id) (select (is_left_out engine_idx) events))
            a.ids
        ∙ append_assoc f.excluded_ids _ _
        ∙ ap (λ r. f.excluded_ids ++ r) (joined (is_left_out engine_idx event));
  }
    where
      joined :
          (b : Bool)
          → map (λ (e : AuditEvent). e.id) (if b then event ∷ [] else [])
              ++ map (λ (e : AuditEvent). e.id) (select (is_left_out engine_idx) events)
            ≡ map
                (λ (e : AuditEvent). e.id)
                (let rest = select (is_left_out engine_idx) events in
                  if b then event ∷ rest else rest)
      joined true = refl
      joined false = refl

  -- A pass that leaves the event out, or does not.
  gather_at-Accounts :
      (time engine : Option ℕ) (engine_idx : Dict String ℕ) (roles : Dict ℕ String)
      (event : AuditEvent) (g : Gathered)
      → event.wall_time_ms ≡ time
      → Dict.get event.engine_id engine_idx ≡ engine
      → Accounts engine_idx (event ∷ []) g (gather_at time engine roles event g)
  gather_at-Accounts none engine engine_idx roles event g e f =
      let timed : is_present event.wall_time_ms ≡ false = ap is_present e in
      record {
        untimed = rw timed (omega arith);
        strange = rw timed (omega arith);
        ids = rw timed refl;
      }
  gather_at-Accounts (some t) none engine_idx roles event g e f =
      let timed : is_present event.wall_time_ms ≡ true = ap is_present e in
      let known : is_present (Dict.get event.engine_id engine_idx) ≡ false = ap is_present f in
      record {
        untimed = rw timed (omega arith);
        strange = rw (timed, known) (omega arith);
        ids = rw (timed, known) refl;
      }
  gather_at-Accounts (some t) (some engine) engine_idx roles event g e f =
      let timed : is_present event.wall_time_ms ≡ true = ap is_present e in
      let known : is_present (Dict.get event.engine_id engine_idx) ≡ true = ap is_present f in
      elim (Bool-cases (is_timeline_peeler_retry_event event)) [
        | inl retry ↦ rw retry (record {
          untimed = rw timed (omega arith);
          strange = rw (timed, known) (omega arith);
          ids = rw (timed, known) (append_nil g.excluded_ids);
        })
        | inr other ↦ rw other (record {
          untimed = rw timed (omega arith);
          strange = rw (timed, known) (omega arith);
          ids = rw (timed, known) (append_nil g.excluded_ids);
        })
      ]

  gather-Accounts :
      (engine_idx : Dict String ℕ) (roles : Dict ℕ String) (events : List AuditEvent) (g : Gathered)
      → Accounts engine_idx events g (gather engine_idx roles events g)
  unfolding gather
  gather-Accounts engine_idx roles [] g = record {
    untimed = omega arith;
    strange = omega arith;
    ids = append_nil g.excluded_ids;
  }
  gather-Accounts engine_idx roles (event ∷ events) g =
      let engine = Dict.get event.engine_id engine_idx in
      let next = gather_at event.wall_time_ms engine roles event g in
      Accounts-trans engine_idx event events g next (gather engine_idx roles events next)
        (gather_at-Accounts event.wall_time_ms engine engine_idx roles event g refl refl)
        (gather-Accounts engine_idx roles events next)

  -- The timeline's items are sorted by time, those of one time by line, and those of one line by
  -- id. It leaves out, in their order, the ids of exactly the events that have no time or no engine
  -- that it shows, and counts them: those without a time, and the others, apart and together.
  pub timeline_items-IsSorted :
      (events : List AuditEvent) (engine_idx : Dict String ℕ) (roles : Dict ℕ String)
      → let out = timeline_items events engine_idx roles in
        IsSorted item_leb out.0
        × (out.1.event_ids
            ≡ map (λ (e : AuditEvent). e.id) (select (is_left_out engine_idx) events))
        × (out.1.no_wall_time ≡ length (select is_untimed events))
        × (out.1.no_engine ≡ length (select (is_strange engine_idx) events))
        × (out.1.count ≡ length (select (is_left_out engine_idx) events))
  unfolding timeline_items
  timeline_items-IsSorted events engine_idx roles =
      let g = gather engine_idx roles events nothing_gathered in
      let a = gather-Accounts engine_idx roles events nothing_gathered in
      (
        sort_by-IsSorted item_leb item_leb_total item_leb_trans
            (g.items ++ items_of_bursts engine_idx roles g.peeler_bursts),
        a.ids,
        a.untimed ∙ omega arith,
        a.strange ∙ omega arith,
        ap length a.ids ∙ length-map _ (select (is_left_out engine_idx) events),
      )
