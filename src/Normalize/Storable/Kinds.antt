-- ===== src/Normalize/Storable/Kinds.antt =====
-- Every case of `normalize_kind` keeps the columns within their limits.
use goggles.Base.{ℕ, refl, inl, inr, Bool-cases, length, all, select, contains, string_eq}
use goggles.Base.Dict
use goggles.Normalize.Storable.Outbound.{Keeps-copy_outbound_messages}
use goggles.Normalize.Storable.Outbound.{Keeps-copy_outbound_messages}
use goggles.Normalize.Storable.Ids.{
  is_hex_column, Keeps-copy_msg_id, Keeps-copy_optional_msg_id, Keeps-copy_digest,
  Keeps-copy_optional_digest, Keeps-store_hex, Keeps-copy_publish_fields,
}
use goggles.Normalize.Storable.Helpers.{
  Keeps-copy_optional_str, Keeps-copy_str, is_int_column, is_json_column, is_text_column,
  Keeps-copy_int, Keeps-copy_optional_int, Keeps-store_json, Keeps-copy_optional_str_list,
}
use goggles.Env.{Env}
use goggles.Json.{
  null, bool, int, arr, obj, Value, Fields, get, items, has_key, is_none, is_hex, value_if_str,
}
use goggles.Normalize.Copy.{Norm}
use goggles.Normalize.Kind.{
  auto_commit_decision, candidate_counts, convergence_decision, convergence_run_state,
  create_group_entry, create_group_error, create_group_outcome, epoch_confirmed, epoch_rolled_back,
  epoch_state_changed, fork_resolution, group_state_changed, ingest_entry, ingest_error,
  ingest_outcome, message_content_decoded, message_state_changed, peeler_outcome, publish_attempt,
  publish_failure, publish_outcome, recipient_expectation, rejection, require_bool, send_entry,
  send_error, send_outcome, snapshot_created, store_bool, store_list, store_value_digest,
  store_welcome_ids, transport_received, with_object, count_candidates, require_one_of, list_only,
  store_object, is_eligible,
}
use goggles.Normalize.Storable.{
  Keeps, keeps_rules, Keeps-skip, Keeps-fail, Keeps-store, Keeps->>, Keeps-if, within_limits, Bool,
  String, List, not, ◌≡◌, true, some,
}

module _ ⦃env : Env⦄ where
  pub Keeps-store_object :
      (v : Value) (dest : String) → is_json_column dest ≡ true → Keeps (store_object v dest)
  Keeps-store_object (obj fs) dest p = Keeps-store_json dest (obj fs) p
  Keeps-store_object null dest p = Keeps-skip
  Keeps-store_object _ dest p = Keeps-skip

  Keeps-with_object :
      (v : Value) (block : Fields → Norm)
      → ((fs : Fields) → Keeps (block fs))
      → Keeps (with_object v block)
  Keeps-with_object (obj fs) block k = k fs
  Keeps-with_object null block k = Keeps-skip
  Keeps-with_object _ block k = Keeps-skip

  Keeps-require_one_of :
      (field : String) (allowed : List String) (message : String)
      → Keeps (require_one_of field allowed message)
  Keeps-require_one_of field allowed message = record {
    keep = λ s h.
        elim (Bool-cases (contains (value_if_str (Dict.get_or null field s.normalized)) allowed)) [
          | inl known ↦ rw known h
          | inr unknown ↦ rw unknown ((Keeps-fail message).keep s h)
        ];
  }

  Keeps-store_list :
      (v : Value) (field : String) → is_json_column field ≡ true → Keeps (store_list v field)
  unfolding store_list
  Keeps-store_list null field p = Keeps-skip
  Keeps-store_list (arr vs) field p = Keeps-store_json field (arr vs) p
  Keeps-store_list _ field p = Keeps-fail _

  Keeps-store_acks : (v : Value) → Keeps (store_bool v "met_required_acks")
  unfolding store_bool within_limits Dict.get
  Keeps-store_acks null = Keeps-skip
  Keeps-store_acks (bool b) = Keeps-store "met_required_acks" (bool b) refl
  Keeps-store_acks _ = Keeps-fail _

  Keeps-require_fallback : (v : Value) → Keeps (require_bool v "fallback_snapshot_used")
  unfolding require_bool within_limits Dict.get
  Keeps-require_fallback (bool b) = Keeps-store "fallback_snapshot_used" (bool b) refl
  Keeps-require_fallback null = Keeps-fail _
  Keeps-require_fallback _ = Keeps-fail _

  Keeps-list_only :
      (v : Value) (test : Value → Bool) (dest message : String)
      → is_json_column dest ≡ true
      → Keeps (list_only v test dest message)
  Keeps-list_only (arr values) test dest message p =
      Keeps-if (all test (items values)) _ _ (λ _. Keeps-store_json dest (arr values) p)
        (λ _. Keeps-fail message)
  Keeps-list_only null test dest message p = Keeps-fail message
  Keeps-list_only _ test dest message p = Keeps-fail message

  Keeps-store_welcome_ids : (kind : Fields) → Keeps (store_welcome_ids kind)
  unfolding store_welcome_ids is_json_column
  Keeps-store_welcome_ids kind =
      Keeps-if (not (has_key "outbound_welcome_msg_ids" kind)) _ _ (λ _. Keeps-skip)
        (λ _.
          Keeps-list_only (get "outbound_welcome_msg_ids" kind) _ "outbound_welcome_msg_ids" _ refl)

  Keeps-store_value_digest : (value : Fields) → Keeps (store_value_digest value)
  unfolding store_value_digest is_hex_column
  Keeps-store_value_digest value =
      Keeps-if (is_none (get "digest" value)) _ _ (λ _. Keeps-skip)
        (λ _.
          Keeps-if (is_hex (some 64) (get "digest" value)) _ _
            (λ h. Keeps-store_hex "payload_digest" (get "digest" value) refl h) (λ _. Keeps-fail _))

  within_limits_count :
      (n : ℕ)
      → (within_limits "candidate_count" (int n) ≡ true)
        × (within_limits "eligible_count" (int n) ≡ true)
  unfolding within_limits Dict.get
  within_limits_count n = (refl, refl)

  candidates-Keeps : (kind : Fields) (v : Value) → Keeps (candidate_counts kind v)
  unfolding candidate_counts is_int_column
  candidates-Keeps kind (arr vs) =
      Keeps->> _ _ (Keeps-store "candidate_count" _ (within_limits_count (length (items vs))).0) (
        Keeps-store "eligible_count" _
          (within_limits_count (length (select is_eligible (items vs)))).1)
  candidates-Keeps kind null = search (keeps_rules, Keeps-copy_int)
  candidates-Keeps kind _ = search (keeps_rules, Keeps-copy_int)

  ruleset kind_rules = (
    keeps_rules, Keeps-copy_optional_str, Keeps-copy_str, Keeps-copy_int, Keeps-copy_optional_int,
    Keeps-copy_msg_id, Keeps-copy_optional_msg_id, Keeps-copy_digest, Keeps-copy_optional_digest,
    Keeps-copy_optional_str_list, Keeps-copy_publish_fields, Keeps-copy_outbound_messages,
    Keeps-store_object, Keeps-require_one_of, Keeps-store_list, Keeps-store_acks,
    Keeps-require_fallback, Keeps-store_welcome_ids,
  )

  module _ (kind : Fields) where
    pub Keeps-transport_received : Keeps (transport_received kind)
    unfolding transport_received is_text_column is_int_column is_json_column is_hex_column
    Keeps-transport_received = search kind_rules depth 14

    pub Keeps-ingest_entry : Keeps (ingest_entry kind)
    unfolding ingest_entry is_text_column is_int_column is_json_column is_hex_column
    Keeps-ingest_entry = search kind_rules depth 14

    pub Keeps-ingest_outcome : Keeps (ingest_outcome kind)
    unfolding ingest_outcome is_text_column is_int_column is_json_column is_hex_column
    Keeps-ingest_outcome = search kind_rules depth 14

    pub Keeps-ingest_error : Keeps (ingest_error kind)
    unfolding ingest_error is_text_column is_int_column is_json_column is_hex_column
    Keeps-ingest_error = search kind_rules depth 14

    pub Keeps-message_content_decoded : Keeps (message_content_decoded kind)
    unfolding message_content_decoded is_text_column is_int_column is_json_column is_hex_column
    Keeps-message_content_decoded = search kind_rules depth 14

    pub Keeps-recipient_expectation : Keeps (recipient_expectation kind)
    unfolding recipient_expectation is_text_column is_int_column is_json_column is_hex_column
    Keeps-recipient_expectation = Keeps->> _ _ (Keeps-copy_msg_id kind) (
        Keeps-with_object (get "expectation" kind) _
          (λ fs. Keeps-copy_optional_str fs "artifact_kind" "target_kind" refl))

    pub Keeps-send_entry : Keeps (send_entry kind)
    unfolding send_entry is_text_column is_int_column is_json_column is_hex_column
    Keeps-send_entry = search kind_rules depth 14

    pub Keeps-send_outcome : Keeps (send_outcome kind)
    unfolding send_outcome is_text_column is_int_column is_json_column is_hex_column
    Keeps-send_outcome = search kind_rules depth 14

    pub Keeps-send_error : Keeps (send_error kind)
    unfolding send_error is_text_column is_int_column is_json_column is_hex_column
    Keeps-send_error = search kind_rules depth 14

    pub Keeps-create_group_entry : Keeps (create_group_entry kind)
    unfolding create_group_entry is_text_column is_int_column is_json_column is_hex_column
    Keeps-create_group_entry = search kind_rules depth 14

    pub Keeps-create_group_outcome : Keeps (create_group_outcome kind)
    unfolding create_group_outcome is_text_column is_int_column is_json_column is_hex_column
    Keeps-create_group_outcome = search kind_rules depth 14

    pub Keeps-create_group_error : Keeps (create_group_error kind)
    unfolding create_group_error is_text_column is_int_column is_json_column is_hex_column
    Keeps-create_group_error = search kind_rules depth 14

    pub Keeps-publish_attempt : Keeps (publish_attempt kind)
    unfolding publish_attempt is_text_column is_int_column is_json_column is_hex_column
    Keeps-publish_attempt = search kind_rules depth 14

    pub Keeps-publish_outcome : Keeps (publish_outcome kind)
    unfolding publish_outcome is_text_column is_int_column is_json_column is_hex_column
    Keeps-publish_outcome = search kind_rules depth 14

    pub Keeps-publish_failure : Keeps (publish_failure kind)
    unfolding publish_failure is_text_column is_int_column is_json_column is_hex_column
    Keeps-publish_failure = search kind_rules depth 14

    pub Keeps-epoch_state_changed : Keeps (epoch_state_changed kind)
    unfolding epoch_state_changed is_text_column is_int_column is_json_column is_hex_column
    Keeps-epoch_state_changed = search kind_rules depth 14

    pub Keeps-group_state_changed : Keeps (group_state_changed kind)
    unfolding group_state_changed is_text_column is_int_column is_json_column is_hex_column
    Keeps-group_state_changed =
        Keeps->> _ _
          (Keeps->> _ _
            (Keeps->> _ _ (Keeps-copy_int kind "epoch" refl)
              (Keeps-copy_str kind "change_kind" "outcome_kind" refl))
            (Keeps-copy_optional_msg_id kind "origin_commit_id" "outbound_msg_id" refl))
          (Keeps-with_object (get "value" kind) _ (λ fs.
            Keeps->> _ _ (Keeps-store_value_digest fs)
              (Keeps-copy_optional_int fs "len" "payload_len" refl)))

    pub Keeps-epoch_confirmed : Keeps (epoch_confirmed kind)
    unfolding epoch_confirmed is_text_column is_int_column is_json_column is_hex_column
    Keeps-epoch_confirmed = search kind_rules depth 14

    pub Keeps-epoch_rolled_back : Keeps (epoch_rolled_back kind)
    unfolding epoch_rolled_back is_text_column is_int_column is_json_column is_hex_column
    Keeps-epoch_rolled_back = search kind_rules depth 14

    pub Keeps-snapshot_created : Keeps (snapshot_created kind)
    unfolding snapshot_created is_text_column is_int_column is_json_column is_hex_column
    Keeps-snapshot_created = search kind_rules depth 14

    pub Keeps-fork_resolution : Keeps (fork_resolution kind)
    unfolding fork_resolution is_text_column is_int_column is_json_column is_hex_column
    Keeps-fork_resolution = search kind_rules depth 14

    pub Keeps-convergence_run_state : Keeps (convergence_run_state kind)
    unfolding convergence_run_state is_text_column is_int_column is_json_column is_hex_column
    Keeps-convergence_run_state = search kind_rules depth 14

    pub Keeps-convergence_decision : Keeps (convergence_decision kind)
    unfolding convergence_decision count_candidates is_text_column is_int_column is_json_column
        is_hex_column
    Keeps-convergence_decision = search (kind_rules, candidates-Keeps) depth 14

    pub Keeps-peeler_outcome : Keeps (peeler_outcome kind)
    unfolding peeler_outcome is_text_column is_int_column is_json_column is_hex_column
    Keeps-peeler_outcome = search kind_rules depth 14

    pub Keeps-auto_commit_decision : Keeps (auto_commit_decision kind)
    unfolding auto_commit_decision is_text_column is_int_column is_json_column is_hex_column
    Keeps-auto_commit_decision = search kind_rules depth 14

    pub Keeps-message_state_changed : Keeps (message_state_changed kind)
    unfolding message_state_changed is_text_column is_int_column is_json_column is_hex_column
    Keeps-message_state_changed = search kind_rules depth 14

    pub Keeps-rejection : Keeps (rejection kind)
    unfolding rejection is_text_column is_int_column is_json_column is_hex_column
    Keeps-rejection = search kind_rules depth 14
