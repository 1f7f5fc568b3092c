-- ===== src/Ingest/Transaction/Recorded.antt =====
-- What create_events has written when it succeeds.
use goggles.Ingest.Groups.{GroupKey}
use goggles.Base.Dict.{Dict}
use goggles.Ingest.Duplicates.{created_lines, existing_duplicate_events}
use goggles.Upload.Parse.{ParsedLine}
use goggles.Ingest.Transaction.Effects.{Spares-statement}
use goggles.Ingest.Session.Post.{Post, Post-bind}
use goggles.Ingest.Transaction.{create_events, store_lines}
use goggles.Ingest.Tables.{stored_rows, event_rows, group_ids_of, add_events, stored_rows_of}
use goggles.Ingest.Store.{FileRow, EventRow, RejectionRow, Store, GroupRow}
use goggles.Ingest.Session.{Database, Session, statement}
use goggles.Base.{
  ℕ, ◌+◌, String, ◌≡◌, refl, sym, ap, ◌∙◌, true, List, [], ◌∷◌, ◌++◌, length, string_eq, nat_eq,
}
use mathlib.Core.Path.{subst}
use goggles.Ingest.Transaction.Stored.{At, spared, AreBelow, Renews, Changed, link_groups_lem}

-- The lines that become rows, in a store with these tables.
abbrev pub created_among : List ParsedLine → List FileRow → List EventRow → List ParsedLine × ℕ
created_among lines files events =
    created_lines lines (existing_duplicate_events lines true (stored_rows files events))

module _ ⦃db : Database⦄ (F : List FileRow) (R : List RejectionRow) (n : ℕ) where
  -- The events of the new file are behind the others.
  pub record Recorded (lines : List ParsedLine) (duplicates : ℕ) (fallback : String)
      (groups_by_key : Dict GroupKey GroupRow) (E : List EventRow) (m : ℕ) (file new : FileRow)
      (count : ℕ) (t : Store) : Type 0 where
    pub renews : Renews file new
    pub uncounted : new.duplicate_event_count ≡ file.duplicate_event_count
    pub counted : count ≡ duplicates
    pub tables :
        let rows = event_rows m file.id fallback groups_by_key lines in
        At (F ++ new ∷ []) (E ++ rows) R n (m + length rows) t

  store_lines_lem :
      (lines : List ParsedLine) (duplicates : ℕ) (fallback : String)
      (groups_by_key : Dict GroupKey GroupRow) (E : List EventRow) (m : ℕ) (file : FileRow)
      (ids : List ℕ) (s : Session)
      → AreBelow file.id F
      → At (F ++ file ∷ []) E R n m s.store
      → Post
          (λ out t. Recorded lines duplicates fallback groups_by_key E m file out.0 out.1 t.store)
          (store_lines file fallback groups_by_key ids (lines, duplicates) s)
  unfolding store_lines
  store_lines_lem lines duplicates fallback groups_by_key E m file ids s below h =
      let Q = λ (out : FileRow × ℕ × List ℕ) (t : Session).
        Recorded lines duplicates fallback groups_by_key E m file out.0 out.1 t.store in
      let rows = event_rows m file.id fallback groups_by_key lines in
      spared (F ++ file ∷ []) E R n m Q statement _ s Spares-statement h (λ _ t k.
        let added : At (F ++ file ∷ []) (E ++ rows) R n (m + length rows) (
            add_events (event_rows t.store.next_event file.id fallback groups_by_key lines)
              t.store) =
          record {
            files = k.files;
            events =
                rw k.events
                  (ap (λ i. E ++ event_rows i file.id fallback groups_by_key lines) k.next_event);
            rejections = k.rejections;
            next_file = k.next_file;
            next_event =
                ap (λ i. i + length (event_rows i file.id fallback groups_by_key lines))
                  k.next_event;
          } in
        Post-bind (Changed F R n (E ++ rows) (m + length rows) file file.duplicate_event_count) Q _
          _ (link_groups_lem F R n (E ++ rows) (m + length rows) file ids _ below added)
          (λ linked u (r, c, w).
            spared (F ++ linked ∷ []) (E ++ rows) R n (m + length rows) Q statement _ u
              Spares-statement w
              (λ _ v l. record { renews = r; uncounted = c; counted = refl; tables = l })))

  among_lem :
      (lines : List ParsedLine) (file : FileRow) (E : List EventRow) (t : Store)
      → file.is_valid ≡ true
      → t.files ≡ F ++ file ∷ []
      → t.events ≡ E
      → created_lines lines (existing_duplicate_events lines file.is_valid (stored_rows_of t))
        ≡ created_among lines (F ++ file ∷ []) E
  among_lem lines file E t v f e =
      ap (λ b. created_lines lines (existing_duplicate_events lines b (stored_rows_of t))) v
      ∙ ap (λ fs. created_among lines fs t.events) f
      ∙ ap (created_among lines (F ++ file ∷ [])) e

  pub create_events_lem :
      (lines : List ParsedLine) (fallback : String) (groups_by_key : Dict GroupKey GroupRow)
      (E : List EventRow) (m : ℕ) (file : FileRow) (s : Session)
      → AreBelow file.id F
      → file.is_valid ≡ true
      → At (F ++ file ∷ []) E R n m s.store
      → let among = created_among lines (F ++ file ∷ []) E in
        Post
          (λ out t. Recorded among.0 among.1 fallback groups_by_key E m file out.0 out.1 t.store)
          (create_events file lines fallback groups_by_key s)
  unfolding create_events
  create_events_lem lines fallback groups_by_key E m file s below v h =
      let among = created_among lines (F ++ file ∷ []) E in
      let Q = λ (out : FileRow × ℕ × List ℕ) (t : Session).
        Recorded among.0 among.1 fallback groups_by_key E m file out.0 out.1 t.store in
      spared (F ++ file ∷ []) E R n m Q statement _ s Spares-statement h (λ _ t k.
        subst
          (λ out. Post Q (
            store_lines file fallback groups_by_key (group_ids_of fallback groups_by_key lines) out
              t))
          (sym (among_lem lines file E t.store v k.files k.events))
          (store_lines_lem among.0 among.1 fallback groups_by_key E m file
            (group_ids_of fallback groups_by_key lines) t below k))
