-- ===== src/Retention/Fresh.antt =====
-- What pruning leaves is within the window.
use mathlib.Core.Path.{subst}
use goggles.Ingest.Session.{Database, Session}
use goggles.Ingest.Store.{Store}
use goggles.Retention.Autocommit.{
  Statements, Run, went_on, broke_off, pure, ◌>>=◌, ◌>>◌, write, read, query,
}
use goggles.Retention.Triple.{
  Triple, Ends, Triple-pure, Triple-weaken, Triple-bind, Triple-if, Triple-write, Triple-read,
  Triple-query,
}
use goggles.Retention.{
  files_among, groups_of, event_groups_of, days_of, ms_before_epoch, query_groups,
  vacuum_audit_data, touched_group_ids, delete_stale, prune_stale, prune_before, prune,
  retention_lock, overflow_error, delete_files, delete_batch, Command, handle, stale_file_ids,
  ms_per_day, stale_rejection_count, command_error, delete_rejections,
}
use goggles.Base.{
  ℕ, ◌+◌, ◌-◌, ◌*◌, ◌≡◌, refl, sym, ap, ◌∙◌, ◌⊎◌, inl, inr, Bool, true, false, not, ◌&&◌, ◌||◌,
  Option, List, [], ◌∷◌, arith, ltb, if◌then◌else◌, ◌==◌, is_empty, nat_eq, string_eq,
}
use goggles.Retention.Batches.{delete_files_lem, Deleted, delete_batch-empty}
use goggles.Retention.Window.{IsFresh, deleted-IsFresh, nothing-IsFresh}

-- A store is this one.
abbrev Same : Store → Store → Type 0
Same before store = store ≡ before

-- Nothing is known of a store.
abbrev Any : Store → Type 0
Any store = Unit

module _ ⦃db : Database⦄ where
  -- Why the command refuses to prune.
  abbrev pub is_refusal : ℕ → Command → Bool
  is_refusal days (command_error message) =
      (db.is_postgresql && not (db.lock_free "retention")) || days == 0
  is_refusal days overflow_error = ltb (db.now + ms_before_epoch) (days * ms_per_day)
  is_refusal days _ = false

  -- A store without stale rows; or that of before, where the command has a reason to refuse.
  abbrev pub FreshOr : ℕ → Store → Command → Store → Type 0
  FreshOr days before c store =
      IsFresh (db.now - days * ms_per_day) store ⊎ ((is_refusal days c ≡ true) × (store ≡ before))

  read-Leaves : (before : Store) → Triple (Same before) read (λ _. Same before) Any
  read-Leaves before = Triple-read (Same before) Any (λ store e. tt)

  query-Leaves :
      {A : Type 0} (before : Store) (f : Store → A)
      → Triple (Same before) (query f) (λ _. Same before) Any
  query-Leaves before f =
      Triple-weaken (Triple-query (Same before) Any (λ store e. tt) f) (λ a store p. p.0)

  query_groups-Leaves :
      (before : Store) (ids : List ℕ)
      → Triple (Same before) (query_groups ids) (λ _. Same before) Any
  unfolding query_groups
  query_groups-Leaves before [] = Triple-pure (Same before) Any [] _ (λ store e. e)
  query_groups-Leaves before (id ∷ ids) =
      Triple-bind (Same before) Any (query (groups_of id)) _ (λ _. Same before) _
        (query-Leaves before (groups_of id))
        (λ _.
          Triple-bind (Same before) Any (query (event_groups_of id)) _ (λ _. Same before) _
            (query-Leaves before (event_groups_of id))
            (λ _.
              Triple-bind (Same before) Any (query_groups ids) _ (λ _. Same before) _
                (query_groups-Leaves before ids)
                (λ _. Triple-pure (Same before) Any _ _ (λ store e. e))))

  vacuum-Leaves : (before : Store) → Triple (Same before) vacuum_audit_data (λ _. Same before) Any
  vacuum-Leaves before =
      Triple-if (Same before) Any db.is_postgresql _ _ _
        (λ _.
          Triple-bind (Same before) Any read _ (λ _. Same before) _ (read-Leaves before)
            (λ _. read-Leaves before))
        (λ _. Triple-pure (Same before) Any tt _ (λ store e. e))

  delete_files-Deletes :
      (before : Store) (ids : List ℕ)
      → Triple (Same before) (delete_files ids) (λ _. Same (delete_batch ids before)) Any
  delete_files-Deletes before ids = record {
    run = λ s e. go s e (delete_files ids s) (delete_files_lem ids s);
  }
    where
      go :
          (s : Session)
          → s.store ≡ before
          → (r : Run (Unit {0})) → Deleted ids s.store r
          → Ends (λ _. Same (delete_batch ids before)) Any r
      go s e (went_on a t) h = h ∙ ap (delete_batch ids) e
      go s e (broke_off fault t) h = (tt, (t.statements, h.0))

  delete_stale-Freshens :
      (cutoff : ℕ) (before : Store) (group_ids : List ℕ)
      → Triple
          (Same before)
          (delete_stale cutoff
            (stale_file_ids cutoff before)
            (stale_rejection_count cutoff before)
            group_ids)
          (λ _. IsFresh cutoff)
          Any
  unfolding delete_stale
  delete_stale-Freshens cutoff before group_ids =
      let ids = stale_file_ids cutoff before in
      let between = delete_rejections cutoff before in
      Triple-bind (Same before) Any (write (delete_rejections cutoff)) _ (λ _. Same between) _
        (Triple-write (Same before) Any (delete_rejections cutoff) (Same between)
          (λ store e. ap (delete_rejections cutoff) e) (λ store e. tt))
        (λ _.
          Triple-bind (Same between) Any
            (if is_empty ids then pure tt else (delete_files ids >> vacuum_audit_data)) _
            (λ _. Same (delete_batch ids between)) _
            (Triple-if (Same between) Any (is_empty ids) _ _ _
              (λ none_left.
                Triple-pure (Same between) Any tt _
                  (λ store e. e ∙ delete_batch-empty ids between none_left))
              (λ _.
                Triple-bind (Same between) Any (delete_files ids) _
                  (λ _. Same (delete_batch ids between)) _ (delete_files-Deletes between ids)
                  (λ _. vacuum-Leaves (delete_batch ids between))))
            (λ _.
              Triple-pure (Same (delete_batch ids between)) Any _ _
                (λ store e. subst (IsFresh cutoff) (sym e) (deleted-IsFresh cutoff before))))

  prune_stale-Freshens :
      (cutoff : ℕ) (before : Store)
      → Triple
          (Same before)
          (prune_stale cutoff false
            (stale_file_ids cutoff before)
            (stale_rejection_count cutoff before))
          (λ _. IsFresh cutoff)
          Any
  unfolding prune_stale
  prune_stale-Freshens cutoff before =
      let ids = stale_file_ids cutoff before in
      Triple-if (Same before) Any (is_empty ids && stale_rejection_count cutoff before == 0) _ _ _
        (λ nothing.
          Triple-pure (Same before) Any _ _
            (λ store e. subst (IsFresh cutoff) (sym e) (nothing-IsFresh cutoff before nothing)))
        (λ _.
          Triple-bind (Same before) Any (touched_group_ids ids) _ (λ _. Same before) _
            (Triple-bind (Same before) Any (query (files_among ids)) _ (λ _. Same before) _
              (query-Leaves before (files_among ids)) (query_groups-Leaves before))
            (delete_stale-Freshens cutoff before))

  -- A query on a store that is known gives what it gives there.
  query-known :
      {A B : Type 0} (before : Store) (f : Store → A) (next : A → Statements B)
      (after : B → Store → Type 0)
      → Triple (Same before) (next (f before)) after Any
      → Triple (Same before) (query f >>= next) after Any
  query-known before f next after t =
      Triple-bind (Same before) Any (query f) next (λ a store. Same before store × (a ≡ f store))
        after (Triple-query (Same before) Any (λ store e. tt) f)
        (λ a. record {
          run = λ s p. subst (λ x. Ends after Any (next x s)) (sym (p.1 ∙ ap f p.0)) (t.run s p.0);
        })

  prune_before-Freshens :
      (cutoff : ℕ) (before : Store)
      → Triple (Same before) (prune_before cutoff false) (λ _. IsFresh cutoff) Any
  prune_before-Freshens cutoff before =
      query-known before (stale_file_ids cutoff) _ _
        (query-known before (stale_rejection_count cutoff) _ _ (prune_stale-Freshens cutoff before))

  -- The checks of the window, which leave the tables as they are where they fail.
  prune-Freshens :
      (days : ℕ) (before : Store)
      → Triple (Same before) (prune days false) (FreshOr days before) Any
  prune-Freshens days before =
      Triple-if (Same before) Any (days == 0) _ _ _
        (λ none_left.
          Triple-pure (Same before) Any _ _ (λ store e. inr (ground (arith, none_left), e)))
        (λ _.
          Triple-if (Same before) Any (ltb (db.now + ms_before_epoch) (days * ms_per_day)) _ _ _
            (λ far. Triple-pure (Same before) Any _ _ (λ store e. inr (far, e)))
            (λ _.
              Triple-weaken (prune_before-Freshens (db.now - days * ms_per_day) before)
                (λ c store fresh. inl fresh)))

  retention_lock-Freshens :
      (days : ℕ) (before : Store)
      → Triple (Same before) (retention_lock (prune days false)) (FreshOr days before) Any
  unfolding retention_lock
  retention_lock-Freshens days before =
      Triple-if (Same before) Any db.is_postgresql _ _ _
        (λ on_postgresql.
          Triple-bind (Same before) Any read _ (λ _. Same before) _ (read-Leaves before)
            (λ _.
              Triple-if (Same before) Any (db.lock_free "retention") _ _ _
                (λ _.
                  Triple-bind (Same before) Any (prune days false) _ (FreshOr days before) _
                    (prune-Freshens days before)
                    (λ c.
                      Triple-bind (FreshOr days before c) Any read _ (λ _. FreshOr days before c) _
                        (Triple-read (FreshOr days before c) Any (λ store e. tt))
                        (λ _. Triple-pure (FreshOr days before c) Any c _ (λ store h. h))))
                (λ taken.
                  Triple-pure (Same before) Any _ _
                    (λ store e. inr (ground (arith, on_postgresql, taken), e)))))
        (λ _. prune-Freshens days before)

  -- Unless a database exception ends the command, for which the database has a statement, a run
  -- that is not dry leaves no file and no rejection that is older than the window; or it ends in its
  -- CommandError or in the OverflowError, leaves the store as it was, and had the reason: the lock
  -- is taken, the window is 0 days, or it starts before the year 1. The setting is the window where
  -- the option is None.
  pub handle-IsFresh :
      (setting : ℕ) (retention_days : Option ℕ) (s : Session)
      → Ends
          (FreshOr (days_of setting retention_days) s.store)
          (λ _. Unit)
          (handle setting retention_days false s)
  unfolding handle
  handle-IsFresh setting retention_days s =
      (retention_lock-Freshens (days_of setting retention_days) s.store).run s refl
