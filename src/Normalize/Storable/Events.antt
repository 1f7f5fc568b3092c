-- ===== src/Normalize/Storable/Events.antt =====
-- `normalize_event` leaves only within_limits columns, whatever the schema let through.
use goggles.Normalize.Storable.Kinds.{
  Keeps-store_object, Keeps-transport_received, Keeps-ingest_entry, Keeps-ingest_outcome,
  Keeps-ingest_error, Keeps-message_content_decoded, Keeps-recipient_expectation, Keeps-send_entry,
  Keeps-send_outcome, Keeps-send_error, Keeps-create_group_entry, Keeps-create_group_outcome,
  Keeps-create_group_error, Keeps-publish_attempt, Keeps-publish_outcome, Keeps-publish_failure,
  Keeps-epoch_state_changed, Keeps-group_state_changed, Keeps-epoch_confirmed,
  Keeps-epoch_rolled_back, Keeps-snapshot_created, Keeps-fork_resolution,
  Keeps-convergence_run_state, Keeps-convergence_decision, Keeps-peeler_outcome,
  Keeps-auto_commit_decision, Keeps-message_state_changed, Keeps-rejection,
}
use goggles.Base.Text.{nonempty}
use goggles.Normalize.Storable.Ids.{Keeps-copy_human_action_fields}
use goggles.Normalize.Storable.Helpers.{
  is_text_column, is_json_column, Keeps-copy_optional_str, Keeps-store_json, Keeps-copy_context_str,
  within_limits_str,
}
use goggles.Normalize.Kind.{match_case, normalize_kind, Case, all_cases}
use goggles.Base.{String, ◌≡◌, refl, true, not, List, [], ◌∷◌, ◌==◌, All, string_eq}
use goggles.Env.{Env}
use goggles.Json.{null, str, obj, Value, Fields, get, value_if_str}
use goggles.Normalize.Copy.{Norm, ◌>>◌, store, unless, string_exceeds_model_limit}
use goggles.Normalize.Event.{
  normalize_context, copy_context_action, copy_snapshot, extend_by_kind, normalize_event_kind,
  when_object,
}
use goggles.Normalize.Storable.{
  Keeps, keeps_rules, Keeps-skip, Keeps-fail, Keeps-store, Keeps->>, Keeps-if, Keeps-unless,
}

module _ ⦃env : Env⦄ where
  Keeps-match_case :
      (event_type : String) (cases : List Case)
      → All (λ c. Keeps c.1) cases
      → Keeps (match_case event_type cases)
  unfolding match_case
  Keeps-match_case event_type [] h = Keeps-skip
  Keeps-match_case event_type ((name, block) ∷ cases) h =
      Keeps-if (name == event_type) block (match_case event_type cases) (λ _. h.0)
        (λ _. Keeps-match_case event_type cases h.1)

  Keeps-all_cases : (kind : Fields) → All (λ c. Keeps c.1) (all_cases kind)
  unfolding is_text_column is_json_column
  Keeps-all_cases kind = (
    Keeps-copy_optional_str kind "recorder" "detail" refl,
    (
      Keeps->> _ _ (Keeps-copy_optional_str kind "new_mode" "outcome" refl)
          (Keeps-copy_optional_str kind "reason" "reason" refl),
      (
        Keeps-store_object (get "source" kind) "context_source" refl,
        (
          Keeps-store_object (get "context" kind) "context_engine" refl,
          (
            Keeps->> _ _ (Keeps-store_object (get "context" kind) "context_group" refl)
                (Keeps-copy_optional_str kind "reason" "reason" refl),
            (
              Keeps-transport_received kind,
              (
                Keeps-ingest_entry kind,
                (
                  Keeps-ingest_outcome kind,
                  (
                    Keeps-ingest_error kind,
                    (
                      Keeps-message_content_decoded kind,
                      (
                        Keeps-recipient_expectation kind,
                        (
                          Keeps-send_entry kind,
                          (
                            Keeps-send_outcome kind,
                            (
                              Keeps-send_error kind,
                              (
                                Keeps-create_group_entry kind,
                                (
                                  Keeps-create_group_outcome kind,
                                  (
                                    Keeps-create_group_error kind,
                                    (
                                      Keeps-copy_human_action_fields kind,
                                      (
                                        Keeps-publish_attempt kind,
                                        (
                                          Keeps-publish_outcome kind,
                                          (
                                            Keeps-publish_failure kind,
                                            (
                                              Keeps-epoch_state_changed kind,
                                              (
                                                Keeps-group_state_changed kind,
                                                (
                                                  Keeps-epoch_confirmed kind,
                                                  (
                                                    Keeps-epoch_rolled_back kind,
                                                    (
                                                      Keeps-snapshot_created kind,
                                                      (
                                                        Keeps-fork_resolution kind,
                                                        (
                                                          Keeps-convergence_run_state kind,
                                                          (
                                                            Keeps-convergence_decision kind,
                                                            (
                                                            Keeps-peeler_outcome kind,
                                                            (
                                                            Keeps-auto_commit_decision kind,
                                                            (
                                                            Keeps-message_state_changed kind,
                                                            (Keeps-rejection kind, tt),
                                                            ),
                                                            ),
                                                            ),
                                                          ),
                                                        ),
                                                      ),
                                                    ),
                                                  ),
                                                ),
                                              ),
                                            ),
                                          ),
                                        ),
                                      ),
                                    ),
                                  ),
                                ),
                              ),
                            ),
                          ),
                        ),
                      ),
                    ),
                  ),
                ),
              ),
            ),
          ),
        ),
      ),
    ),
  )

  Keeps-normalize_kind :
      (kind : Fields) (event_type : String) → Keeps (normalize_kind kind event_type)
  unfolding normalize_kind
  Keeps-normalize_kind kind event_type =
      Keeps-match_case event_type (all_cases kind) (Keeps-all_cases kind)

  Keeps-when_object :
      (v : Value) (write : Fields → Norm) (otherwise : Norm)
      → ((fs : Fields) → Keeps (write fs))
      → Keeps otherwise
      → Keeps (when_object v write otherwise)
  Keeps-when_object (obj fs) write otherwise kw ko = kw fs
  Keeps-when_object null write otherwise kw ko = Keeps-skip
  Keeps-when_object _ write otherwise kw ko = ko

  Keeps-copy_snapshot :
      (context : Fields) (field dest : String)
      → is_json_column dest ≡ true
      → Keeps (copy_snapshot context field dest)
  unfolding copy_snapshot
  Keeps-copy_snapshot context field dest p =
      Keeps-when_object (get field context) _ _ (λ fs. Keeps-store_json dest (obj fs) p)
        (Keeps-fail _)

  Keeps-copy_context_action : (v : Value) → Keeps (copy_context_action v)
  unfolding copy_context_action is_json_column
  Keeps-copy_context_action (obj action) =
      Keeps->> _ _ (Keeps-store_json "context_human_action" (obj action) refl)
        (Keeps-copy_human_action_fields action)
  Keeps-copy_context_action null = Keeps-skip
  Keeps-copy_context_action _ = Keeps-fail _

  pub Keeps-normalize_context : (v : Value) → Keeps (normalize_context v)
  unfolding normalize_context is_text_column is_json_column
  Keeps-normalize_context (obj context) =
      search
        (
          keeps_rules, Keeps-store_json, Keeps-copy_context_str, Keeps-copy_context_action,
          Keeps-copy_snapshot,
        )
        depth 14
  Keeps-normalize_context null = Keeps-skip
  Keeps-normalize_context _ = Keeps-fail _

  Keeps-extend_by_kind :
      (event_type : String) (kind : Fields) → Keeps (extend_by_kind event_type kind)
  unfolding extend_by_kind
  Keeps-extend_by_kind event_type kind = record {
    keep = λ s h. record {
      at =
          ((Keeps-normalize_kind kind event_type).keep (record s { errors = [] })
            (record { at = h.at })).at;
    };
  }

  Keeps-unless_type :
      (event_type : String) (kind : Fields)
      → Keeps (
          unless
            (string_exceeds_model_limit "event_type" event_type)
            (store "event_type" (str event_type) >> extend_by_kind event_type kind))
  unfolding is_text_column
  Keeps-unless_type event_type kind =
      Keeps-unless (string_exceeds_model_limit "event_type" event_type) _ (λ h.
        Keeps->> _ _
          (Keeps-store "event_type" (str event_type)
            (within_limits_str "event_type" event_type refl h))
          (Keeps-extend_by_kind event_type kind))

  pub Keeps-normalize_event_kind : (v : Value) → Keeps (normalize_event_kind v)
  unfolding normalize_event_kind is_text_column is_json_column
  Keeps-normalize_event_kind (obj kind) =
      Keeps->> _ _ (Keeps-store_json "raw_kind" (obj kind) refl) (
        Keeps-if (not (nonempty (value_if_str (get "type" kind)))) _ _ (λ _. Keeps-fail _)
          (λ _. Keeps-unless_type (value_if_str (get "type" kind)) kind))
  Keeps-normalize_event_kind null = Keeps-fail _
  Keeps-normalize_event_kind _ = Keeps-fail _
