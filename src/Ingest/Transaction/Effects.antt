-- ===== src/Ingest/Transaction/Effects.antt =====
-- Which steps of the transaction leave files, events and rejections as they are.
use goggles.Ingest.Session.Post.{
  Spares, Spares-bind, Spares-if, Spares-pure, untouched, Spares-gets, Spares-modify, Spares-raise,
}
use goggles.Ingest.Groups.{GroupKey, by_ref, by_slug}
use goggles.Analysis.Landing.{distinct_ids}
use goggles.Ingest.Groups.Find.{
  get_or_create, group_for_key, groups_for_keys, claim_ref, found_or_created, group_for_ref,
  group_with_ref, add_group, group_for_slug,
}
use goggles.Ingest.Transaction.{begin_ingestion, lock_recorders, refresh_group_rollups, put_counts}
use goggles.Env.{Env}
use goggles.Ingest.Store.{GroupRow}
use goggles.Ingest.Session.{Database, Fault, meets, statement, busy, failed}
use goggles.Base.{
  ℕ, String, refl, Bool, true, false, not, Option, none, some, List, [], ◌∷◌, ltb, is_empty,
  string_eq,
}

module _ ⦃db : Database⦄ where
  meets-Spares : (o : Option Fault) → Spares (meets o)
  meets-Spares none = record { spare = λ s. untouched s.store }
  meets-Spares (some fault) = record { spare = λ s. tt }

  pub Spares-statement : Spares statement
  unfolding statement
  Spares-statement = record { spare = λ s. (meets-Spares (db.fault s.statements)).spare s }

  lock_recorders-Spares : (ids : List String) → Spares (lock_recorders ids)
  unfolding lock_recorders
  lock_recorders-Spares [] = Spares-pure tt
  lock_recorders-Spares (id ∷ ids) = Spares-bind _ _ Spares-statement (λ _.
      Spares-bind _ _ (Spares-if (db.lock_free id) _ _ (Spares-pure tt) (Spares-raise busy))
        (λ _. lock_recorders-Spares ids))

  pub begin_ingestion-Spares : (ids : List String) → Spares (begin_ingestion ids)
  unfolding begin_ingestion
  begin_ingestion-Spares ids = Spares-if (not db.is_postgresql) _ _ (Spares-pure tt) (
      Spares-if (ltb db.pg_version 170000) _ _ (Spares-raise (failed "RuntimeError")) (
        Spares-bind _ _ Spares-statement (λ _. Spares-bind _ _ Spares-statement (λ _.
          Spares-bind _ _ Spares-statement
            (λ _. Spares-bind _ _ Spares-statement (λ _. lock_recorders-Spares _))))))

  pub refresh_group_rollups-Spares : (ids : List ℕ) → Spares (refresh_group_rollups ids)
  unfolding refresh_group_rollups
  refresh_group_rollups-Spares ids =
      Spares-if (is_empty (distinct_ids [] ids)) _ _ (Spares-pure tt) (
        Spares-bind _ _ Spares-statement (λ _. Spares-bind _ _ Spares-statement (λ _.
          Spares-modify (put_counts (distinct_ids [] ids)) (λ s. record {
            files = refl;
            events = refl;
            rejections = refl;
            next_file = refl;
            next_event = refl;
          }))))

module _ ⦃env : Env⦄ ⦃db : Database⦄ where
  found_or_created-Spares :
      (o : Option GroupRow) (slug name group_ref : String)
      → Spares (found_or_created o slug name group_ref)
  found_or_created-Spares (some row) slug name group_ref = Spares-pure (row, false)
  found_or_created-Spares none slug name group_ref = Spares-bind _ _ Spares-statement (λ _.
      Spares-bind _ _ (Spares-gets _) (λ row.
        Spares-bind _ _
          (Spares-modify (add_group row) (λ s. record {
            files = refl;
            events = refl;
            rejections = refl;
            next_file = refl;
            next_event = refl;
          }))
          (λ _. Spares-pure (row, true))))

  get_or_create-Spares : (slug name group_ref : String) → Spares (get_or_create slug name group_ref)
  unfolding get_or_create
  get_or_create-Spares slug name group_ref =
      Spares-bind _ _ Spares-statement
        (λ _. Spares-bind _ _ (Spares-gets _) (λ o. found_or_created-Spares o slug name group_ref))

  claim_ref-Spares : (group_ref : String) (p : GroupRow × Bool) → Spares (claim_ref group_ref p)
  claim_ref-Spares group_ref (row, made) =
      Spares-if _ _ _
        (Spares-bind _ _ Spares-statement (λ _.
          Spares-bind _ _
            (Spares-modify _ (λ s. record {
              files = refl;
              events = refl;
              rejections = refl;
              next_file = refl;
              next_event = refl;
            }))
            (λ _. Spares-pure (record row { group_ref = group_ref }))))
        (Spares-if made _ _ (Spares-bind _ _ Spares-statement (λ _. Spares-pure row))
          (Spares-pure row))

  group_with_ref-Spares :
      (o : Option GroupRow) (group_ref : String) → Spares (group_with_ref o group_ref)
  group_with_ref-Spares (some row) group_ref = Spares-pure row
  group_with_ref-Spares none group_ref =
      Spares-bind _ _ (get_or_create-Spares _ _ group_ref) (claim_ref-Spares group_ref)

  group_for_key-Spares : (key : GroupKey) (name : String) → Spares (group_for_key key name)
  unfolding group_for_key group_for_ref group_for_slug
  group_for_key-Spares (by_ref value) name =
      Spares-bind _ _ Spares-statement
        (λ _. Spares-bind _ _ (Spares-gets _) (λ o. group_with_ref-Spares o value))
  group_for_key-Spares (by_slug value) name =
      Spares-bind _ _ (get_or_create-Spares value _ "") (λ found. Spares-pure found.0)

  pub groups_for_keys-Spares :
      (keys : List GroupKey) (name : String) → Spares (groups_for_keys keys name)
  unfolding groups_for_keys
  groups_for_keys-Spares [] name = Spares-pure []
  groups_for_keys-Spares (key ∷ keys) name = Spares-bind _ _ (group_for_key-Spares key name) (λ row.
      Spares-bind _ _ (groups_for_keys-Spares keys name) (λ rows. Spares-pure ((key, row) ∷ rows)))
