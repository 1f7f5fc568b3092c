-- ===== src/Analysis/Parity/Groups.antt =====
-- One group's part of the pass over the rows of many groups is the pass over that group's rows.
use goggles.Analysis.Traces.{divergent_message_count}
use goggles.Base.Dict.{Dict}
use goggles.Analysis.Parity.Rows.{rows_into, NamesEngine, divergent_count-rows_into}
use goggles.Analysis.Landing.{
  distinct_ids, divergent_counts_for_group_ids, in_groups, tally_at, tally_rows, Tally, no_tally,
  tally_row, divergent_count,
}
use goggles.Event.{AuditEvent}
use goggles.Base.{
  ℕ, ◌≡◌, refl, ap, ◌∙◌, inl, inr, Bool, true, false, Option, none, some, List, [], ◌∷◌, map, arith,
  if◌then◌else◌, Bool-cases, ◌==◌, select, All, contains, contains-add, nat_eq,
}
use goggles.Base.Dict
use goggles.Base.Dict.Entries.{get_or-put}

-- `.filter(group=group)`
abbrev pub is_of : ℕ → Option ℕ → Bool
is_of g none = false
is_of g (some h) = h == g

abbrev pub rows_of : ℕ → List AuditEvent → List AuditEvent
rows_of g rows = select (λ row. is_of g row.group_id) rows

tally_at-is_of :
    (g : ℕ) (o : Option ℕ) (row : AuditEvent) (tallies : Dict ℕ Tally)
    → Dict.get_or no_tally g (tally_at o row tallies) ≡ (
        if is_of g o
        then tally_row row (Dict.get_or no_tally g tallies)
        else Dict.get_or no_tally g tallies)
unfolding tally_at
tally_at-is_of g none row tallies = refl
tally_at-is_of g (some h) row tallies =
    get_or-put no_tally h g (tally_row row (Dict.get_or no_tally h tallies)) tallies
    ∙ at_key (h == g) ((nat_eq.same_iff h g).0)
  where
    at_key :
        (b : Bool)
        → (b ≡ true → h ≡ g)
        → (if b
            then tally_row row (Dict.get_or no_tally h tallies)
            else Dict.get_or no_tally g tallies)
          ≡ (if b
              then tally_row row (Dict.get_or no_tally g tallies)
              else Dict.get_or no_tally g tallies)
    at_key true e = ap (λ k. tally_row row (Dict.get_or no_tally k tallies)) (e refl)
    at_key false e = refl

rows_into-if :
    (b : Bool) (row : AuditEvent) (rows : List AuditEvent) (tally : Tally)
    → rows_into rows (if b then tally_row row tally else tally)
      ≡ rows_into (if b then row ∷ rows else rows) tally
unfolding rows_into
rows_into-if true row rows tally = refl
rows_into-if false row rows tally = refl

pub tally_rows-rows_of :
    (g : ℕ) (rows : List AuditEvent) (tallies : Dict ℕ Tally)
    → Dict.get_or no_tally g (tally_rows rows tallies)
      ≡ rows_into (rows_of g rows) (Dict.get_or no_tally g tallies)
unfolding tally_rows rows_into
tally_rows-rows_of g [] tallies = refl
tally_rows-rows_of g (row ∷ rows) tallies =
    tally_rows-rows_of g rows (tally_at row.group_id row tallies)
    ∙ ap (rows_into (rows_of g rows)) (tally_at-is_of g row.group_id row tallies)
    ∙ rows_into-if (is_of g row.group_id) row (rows_of g rows) (Dict.get_or no_tally g tallies)

-- A list of ids that holds g selects all of g's rows.
in_groups-is_of :
    (g : ℕ) (ids : List ℕ) (o : Option ℕ)
    → contains g ids ≡ true
    → is_of g o ≡ true
    → in_groups ids o ≡ true
in_groups-is_of g ids none h p = absurd (ground arith)
in_groups-is_of g ids (some k) h p = let e : k ≡ g = (nat_eq.same_iff k g).0 p in rw e h

rows_of-in_groups :
    (g : ℕ) (ids : List ℕ) (rows : List AuditEvent)
    → contains g ids ≡ true
    → rows_of g (select (λ row. in_groups ids row.group_id) rows) ≡ rows_of g rows
rows_of-in_groups g ids [] h = refl
rows_of-in_groups g ids (row ∷ rows) h =
    ground (arith, in_groups-is_of g ids row.group_id h, rows_of-in_groups g ids rows h)

distinct_ids-seen :
    (g : ℕ) (ids : List ℕ) (seen : List ℕ)
    → contains g seen ≡ true
    → contains g (distinct_ids seen ids) ≡ true
unfolding distinct_ids
distinct_ids-seen g [] seen h = h
distinct_ids-seen g (i ∷ ids) seen h =
    distinct_ids-seen g ids _ (ground (arith, contains-add g i seen))

pub contains-distinct_ids :
    (g : ℕ) (ids : List ℕ) (seen : List ℕ)
    → (g == 0) ≡ false
    → contains g ids ≡ true
    → contains g (distinct_ids seen ids) ≡ true
unfolding distinct_ids
contains-distinct_ids g [] seen z h = absurd (ground arith)
contains-distinct_ids g (i ∷ ids) seen z h = elim (Bool-cases (i == g)) [
  | inl p ↦
      let e : i ≡ g = (nat_eq.same_iff i g).0 p in
      distinct_ids-seen g ids _
        (rw (e, z) (contains-add g g seen ∙ rw ((nat_eq.same_iff g g).1 refl) refl))
  | inr p ↦ contains-distinct_ids g ids _ z (ground arith)
]

get-map :
    (f : ℕ → ℕ) (g : ℕ) (ids : List ℕ)
    → contains g ids ≡ true
    → Dict.get g (map (λ i. (i, f i)) ids) ≡ some (f g)
unfolding Dict.get
get-map f g [] h = absurd (ground arith)
get-map f g (i ∷ ids) h = elim (Bool-cases (i == g)) [
  | inl p ↦ let e : i ≡ g = (nat_eq.same_iff i g).0 p in rw (p, e) refl
  | inr p ↦ rw p (get-map f g ids (ground arith))
]

-- The landing page's count of a group that it lists is the detail page's count over the group's
-- rows, if each row names its engine and the group's id is not 0.
pub divergent_counts_for_group_ids-divergent_message_count :
    (group_ids : List ℕ) (rows : List AuditEvent) (g : ℕ)
    → (g == 0) ≡ false
    → contains g group_ids ≡ true
    → All NamesEngine (rows_of g rows)
    → Dict.get g (divergent_counts_for_group_ids group_ids rows)
      ≡ some (divergent_message_count (rows_of g rows))
unfolding divergent_counts_for_group_ids rows_into Dict.get
divergent_counts_for_group_ids-divergent_message_count group_ids rows g z listed full =
    let ids = distinct_ids [] group_ids in
    let held = contains-distinct_ids g group_ids [] z listed in
    get-map _ g ids held
    ∙ ap some (
        ap divergent_count (
          tally_rows-rows_of g (select (λ row. in_groups ids row.group_id) rows) []
          ∙ ap (λ own. rows_into own no_tally) (rows_of-in_groups g ids rows held))
        ∙ divergent_count-rows_into (rows_of g rows) full)
