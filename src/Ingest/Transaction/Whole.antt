-- ===== src/Ingest/Transaction/Whole.antt =====
-- The transaction of an upload as a whole, and its composition with validation and the rollback.
use goggles.Ingest.Transaction.Effects.{
  begin_ingestion-Spares, groups_for_keys-Spares, Spares-statement, refresh_group_rollups-Spares,
}
use goggles.Ingest.Groups.{GroupKey}
use goggles.Ingest.Session.Post.{Post, Post-bind}
use goggles.Base.Dict.{Dict}
use goggles.Ingest.Transaction.Stored.{
  AreBelow, Renews, At, spared, create_file_lem, Changed, count_duplicates_lem, Renews-trans,
}
use goggles.Ingest.Transaction.Recorded.{created_among, Recorded, create_events_lem}
use goggles.Ingest.Store.{Store, FileRow, GroupRow}
use goggles.Upload.Parse.{ParsedLine}
use goggles.Ingest.Transaction.{Dump, store_upload, file_row, complete_upload, ids_of_groups}
use goggles.Ingest.Tables.{event_rows}
use goggles.Env.{Env}
use goggles.Ingest.Session.{Database, Session, statement}
use goggles.Base.{ℕ, suc, ◌+◌, String, ◌≡◌, refl, sym, ◌∙◌, List, [], ◌∷◌, ◌++◌, length, string_eq}
use mathlib.Core.Path.{subst}

module _ ⦃env : Env⦄ ⦃db : Database⦄ (dump : Dump) (raw_text : String) (lines : List ParsedLine)
    (s : Store) where
  -- The new file's row as it is created, and the lines that become rows.
  abbrev pub first_row : FileRow
  first_row = file_row dump raw_text lines s.next_file

  abbrev pub among : List ParsedLine × ℕ
  among = created_among lines (s.files ++ first_row ∷ []) s.events

  -- The tables are the old ones, with the file and the rows of its new lines behind them.
  pub record Stores (file : FileRow) (t : Store) : Type 0 where
    pub renews : Renews first_row file
    pub counted : file.duplicate_event_count ≡ among.1
    pub groups_by_key : Dict GroupKey GroupRow
    pub tables :
        let rows =
          event_rows s.next_event s.next_file dump.fallback_group_slug groups_by_key among.0 in
        At
          (s.files ++ file ∷ [])
          (s.events ++ rows)
          s.rejections
          (suc s.next_file)
          (s.next_event + length rows)
          t

  complete_upload_lem :
      (groups : Dict GroupKey GroupRow) (t : Session)
      → AreBelow s.next_file s.files
      → At (s.files ++ first_row ∷ []) s.events s.rejections (suc s.next_file) s.next_event t.store
      → Post (λ file u. Stores file u.store) (complete_upload dump lines groups first_row t)
  unfolding complete_upload
  complete_upload_lem groups t below h =
      let F = s.files in
      let R = s.rejections in
      let n = suc s.next_file in
      let slug = dump.fallback_group_slug in
      let rows = event_rows s.next_event s.next_file slug groups among.0 in
      let E = s.events ++ rows in
      let m = s.next_event + length rows in
      let Q = λ (file : FileRow) (u : Session). Stores file u.store in
      Post-bind
        (λ out u.
          Recorded F R n among.0 among.1 slug groups s.events s.next_event first_row out.0 out.1
            u.store)
        Q _ _
        (create_events_lem F R n lines slug groups s.events s.next_event first_row t below refl h)
        (λ out t1 r.
          Post-bind (Changed F R n E m out.0 out.1) Q _ _
            (count_duplicates_lem F R n E m out.0 out.1 t1 (rw r.renews.id below) r.uncounted
              r.tables)
            (λ saved t2 (c, d, k).
              spared (F ++ saved ∷ []) E R n m Q statement _ t2 Spares-statement k (λ _ t3 k3.
                spared (F ++ saved ∷ []) E R n m Q _ _ t3
                  (refresh_group_rollups-Spares (ids_of_groups out.2 t3.store)) k3
                  (λ _ t4 k4. record {
                    renews = Renews-trans first_row out.0 saved r.renews c;
                    counted = d ∙ r.counted;
                    groups_by_key = groups;
                    tables = k4;
                  }))))

  pub store_upload_lem :
      (n : ℕ)
      → AreBelow s.next_file s.files
      → Post
          (λ file t. Stores file t.store)
          (store_upload dump raw_text lines (record { store = s; statements = n }))
  unfolding store_upload
  store_upload_lem n below =
      let F = s.files in
      let E = s.events in
      let R = s.rejections in
      let Q = λ (file : FileRow) (t : Session). Stores file t.store in
      let here : At F E R s.next_file s.next_event s = record {
        files = refl;
        events = refl;
        rejections = refl;
        next_file = refl;
        next_event = refl;
      } in
      spared F E R s.next_file s.next_event Q _ _ (record { store = s; statements = n })
        (begin_ingestion-Spares _) here
        (λ _ t1 h1.
          spared F E R s.next_file s.next_event Q _ _ t1 (groups_for_keys-Spares _ _) h1
            (λ groups t2 h2.
              spared F E R s.next_file s.next_event Q statement _ t2 Spares-statement h2 (λ _ t3 h3.
                Post-bind
                  (λ file t.
                    (file ≡ first_row)
                    × At (F ++ first_row ∷ []) E R (suc s.next_file) s.next_event t.store)
                  Q _ _
                  (create_file_lem F R s.next_file E s.next_event (file_row dump raw_text lines) t3
                    h3)
                  (λ file t4 h4.
                    subst (λ row. Post Q (complete_upload dump lines groups row t4)) (sym h4.0)
                      (complete_upload_lem groups t4 below h4.1)))))
