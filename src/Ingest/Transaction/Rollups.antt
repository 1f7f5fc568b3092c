-- ===== src/Ingest/Transaction/Rollups.antt =====
-- The counts that ingestion stores with the groups are those that the group pages show.
use goggles.Ingest.Session.Post.{Post, Post-if, Post-bind}
use goggles.Analysis.Parity.Rows.{NamesEngine}
use goggles.Analysis.Landing.{distinct_ids, divergent_counts_for_group_ids}
use goggles.Ingest.Transaction.{refresh_group_rollups, counted_events}
use goggles.Ingest.Tables.{with_count}
use goggles.Ingest.Store.{GroupRow}
use goggles.Ingest.Session.{Database, Session, Attempt, done, raised, statement}
use goggles.Event.{AuditEvent}
use goggles.Base.{
  ℕ, ◌≡◌, ap, inl, inr, true, false, Option, none, some, List, [], ◌∷◌, map, arith, Bool-cases,
  ◌==◌, is_empty, All, contains, nat_eq,
}
use goggles.Analysis.Traces.{divergent_message_count}
use goggles.Analysis.Parity.Groups.{
  contains-distinct_ids, rows_of, divergent_counts_for_group_ids-divergent_message_count,
}

-- If the group is one of those, its stored count is the detail page's over its counted events.
abbrev pub ShowsCount : List ℕ → List AuditEvent → GroupRow → Type 0
ShowsCount group_ids rows group =
    (group.id == 0) ≡ false
    → contains group.id group_ids ≡ true
    → All NamesEngine (rows_of group.id rows)
    → group.divergent_message_count ≡ divergent_message_count (rows_of group.id rows)

with_count-ShowsCount :
    (group_ids : List ℕ) (rows : List AuditEvent) (group : GroupRow)
    → let ids = distinct_ids [] group_ids in
      ShowsCount group_ids rows (with_count ids (divergent_counts_for_group_ids ids rows) group)
with_count-ShowsCount group_ids rows group =
    let ids = distinct_ids [] group_ids in
    elim (Bool-cases (contains group.id ids)) [
      | inl listed ↦ rw listed (λ z h full.
          ap (λ (o : Option ℕ). let n : ℕ = elim o [ none ↦ 0 | some m ↦ m ] in n)
            (divergent_counts_for_group_ids-divergent_message_count ids rows group.id z listed
              full))
      | inr other ↦
          rw other
            (λ z h full. absurd (ground (arith, contains-distinct_ids group.id group_ids [] z h)))
    ]

All-with_count :
    (group_ids : List ℕ) (rows : List AuditEvent) (groups : List GroupRow)
    → let ids = distinct_ids [] group_ids in
      All
        (ShowsCount group_ids rows)
        (map (with_count ids (divergent_counts_for_group_ids ids rows)) groups)
All-with_count group_ids rows [] = tt
All-with_count group_ids rows (group ∷ groups) =
    (with_count-ShowsCount group_ids rows group, All-with_count group_ids rows groups)

unlisted :
    (group_ids : List ℕ) (rows : List AuditEvent) (groups : List GroupRow)
    → is_empty (distinct_ids [] group_ids) ≡ true
    → All (ShowsCount group_ids rows) groups
unlisted group_ids rows [] e = tt
unlisted group_ids rows (group ∷ groups) e = (
  λ z h full.
      absurd
        (none_held (distinct_ids [] group_ids) e (contains-distinct_ids group.id group_ids [] z h)),
  unlisted group_ids rows groups e,
)
  where
    none_held : (ids : List ℕ) → is_empty ids ≡ true → contains group.id ids ≡ true → ⊥
    none_held [] e h = ground arith
    none_held (i ∷ ids) e h = ground arith

module _ ⦃db : Database⦄ where
  -- When refresh_group_rollups succeeds, each stored group of those it was given, if its id is not
  -- 0 and each of its counted events names an engine, has the count of the detail page over the
  -- counted events of the store that it leaves.
  pub refresh_group_rollups-ShowsCount :
      (group_ids : List ℕ) (s : Session)
      → Post
          (λ _ t. All (ShowsCount group_ids (counted_events t.store)) t.store.groups)
          (refresh_group_rollups group_ids s)
  unfolding refresh_group_rollups counted_events
  refresh_group_rollups-ShowsCount group_ids s =
      let Q = λ (u : Unit {0}) (t : Session).
        All (ShowsCount group_ids (counted_events t.store)) t.store.groups in
      let Any = λ (u : Unit {0}) (t : Session). Unit {0} in
      Post-if Q (is_empty (distinct_ids [] group_ids)) _ _ s
        (λ e. unlisted group_ids (counted_events s.store) s.store.groups e)
        (λ _. Post-bind Any Q (statement s) _ (any_post (statement s)) (λ _ t _.
          Post-bind Any Q (statement t) _ (any_post (statement t))
            (λ _ u _. All-with_count group_ids (counted_events u.store) u.store.groups)))
    where
      any_post : (x : Attempt (Unit {0})) → Post (λ _ _. Unit {0}) x
      any_post (done a t) = tt
      any_post (raised fault) = tt
