-- ===== src/Normalize/Storable/Rows.antt =====
-- The whole of `normalize_event`: the columns it starts from are bounded by its first four checks,
-- and every later write is within limits.
use goggles.Normalize.Storable.Events.{Keeps-normalize_event_kind, Keeps-normalize_context}
use goggles.Normalize.Columns.{group_ref_max_length}
use goggles.Normalize.Storable.Helpers.{
  is_int_column, is_text_column, within_limits_int, within_limits_str, within_limits_empty,
}
use goggles.Base.{
  ℕ, String, ◌≡◌, refl, sym, ap, ◌∙◌, inl, inr, Bool, true, false, Option, none, some, List, [],
  ◌∷◌, arith, ltb, Bool-cases, ◌==◌, All, contains, string_eq,
}
use goggles.Base.Dict
use goggles.Base.Text.{str_len}
use goggles.Base.Dict.{get-put}
use goggles.Env.{Env}
use goggles.Json.{null, int, str, Value, Fields, get, value_if_int, value_if_str, obj}
use goggles.Normalize.Copy.{
  Notes, ◌>>◌, fail, store, int_exceeds_model_limit, string_exceeds_model_limit,
}
use goggles.Normalize.Event.{
  reset_if, normalize_event, check_engine_id, check_group_ref, check_seq, check_wall_time,
  max_wall_time_ms, int_value, time_limit, bounded_str_or_empty, initial, normalize_valid,
  normalize_unless, schema_error_code,
}
use goggles.Normalize.Storable.{IsWithinLimits, within_limits}

module _ ⦃env : Env⦄ where
  -- Within limits but for the columns that are not checked yet.
  record IsWithinLimitsBut (pending : List String) (s : Notes) : Type 0 where
    at :
        (field : String) (v : Value)
        → contains field pending ≡ false
        → Dict.get field s.normalized ≡ some v
        → within_limits field v ≡ true

  -- A check of one column.
  record Settles (field : String) (s t : Notes) : Type 0 where
    others : (j : String) → (field == j) ≡ false → Dict.get j t.normalized ≡ Dict.get j s.normalized
    settled : (v : Value) → Dict.get field t.normalized ≡ some v → within_limits field v ≡ true

  settle :
      (field : String) (pending : List String) (s t : Notes)
      → IsWithinLimitsBut (field ∷ pending) s
      → Settles field s t
      → IsWithinLimitsBut pending t
  settle field pending s t h c = record {
    at = λ j v fresh e. elim (Bool-cases (field == j)) [
      | inl same ↦
          let p : field ≡ j = (string_eq.same_iff field j).0 same in rw (← p) (c.settled v (rw p e))
      | inr other ↦ h.at j v (ground arith) (sym (c.others j other) ∙ e)
    ];
  }

  Settles-store :
      (field message : String) (v : Value) (s : Notes)
      → within_limits field v ≡ true
      → Settles field s ((fail message >> store field v) s)
  Settles-store field message v s p = record {
    others = λ j other. ground (arith, get-put field j v s.normalized);
    settled =
        λ w e. ground (arith, get-put field field v s.normalized, string_eq.same_iff field field);
  }

  Settles-same :
      (field : String) (v : Value) (s t : Notes)
      → t.normalized ≡ s.normalized
      → Dict.get field s.normalized ≡ some v
      → within_limits field v ≡ true
      → Settles field s t
  Settles-same field v s t q e p = record {
    others = λ j _. ap (Dict.get j) q;
    settled = λ w g. ground (arith, ap (Dict.get field) q);
  }

  Settles-reset_if :
      (o : Option String) (field : String) (default v : Value) (s : Notes)
      → within_limits field default ≡ true
      → (o ≡ none → within_limits field v ≡ true)
      → Dict.get field s.normalized ≡ some v
      → Settles field s (reset_if o field default s)
  Settles-reset_if none field default v s p q e = Settles-same field v s s refl e (q refl)
  Settles-reset_if (some message) field default v s p q e = Settles-store field message default s p

  check_seq-Settles :
      (o : Option ℕ) (s : Notes)
      → Dict.get "seq" s.normalized ≡ some (int_value o)
      → Settles "seq" s (check_seq o s)
  unfolding check_seq is_int_column within_limits Dict.get
  check_seq-Settles none s e = Settles-same "seq" null s _ refl e refl
  check_seq-Settles (some n) s e =
      Settles-reset_if (int_exceeds_model_limit "seq" "seq" n) "seq" null (int n) s refl
        (λ h. within_limits_int "seq" "seq" n refl h) e

  instant : (n : ℕ) → ltb max_wall_time_ms n ≡ false → within_limits "wall_time_ms" (int n) ≡ true
  unfolding within_limits
  instant n h = ground arith

  no_instant : within_limits "wall_time_ms" null ≡ true
  unfolding within_limits
  no_instant = refl

  check_wall_time-Settles :
      (o : Option ℕ) (s : Notes)
      → Dict.get "wall_time_ms" s.normalized ≡ some (int_value o)
      → Settles "wall_time_ms" s (check_wall_time o s)
  unfolding check_wall_time
  check_wall_time-Settles none s e = Settles-same "wall_time_ms" null s _ refl e no_instant
  check_wall_time-Settles (some n) s e =
      limited (int_exceeds_model_limit "wall_time_ms" "wall_time_ms" n)
    where
      late :
          (b : Bool) → (ltb max_wall_time_ms n) ≡ b → Settles "wall_time_ms" s (time_limit n none s)
      late true p = rw p (Settles-store "wall_time_ms" _ null s no_instant)
      late false p = rw p (Settles-same "wall_time_ms" (int n) s s refl e (instant n p))

      limited : (o : Option String) → Settles "wall_time_ms" s (time_limit n o s)
      limited (some message) = Settles-store "wall_time_ms" message null s no_instant
      limited none = late (ltb max_wall_time_ms n) refl

  check_engine_id-Settles :
      (t : String) (s : Notes)
      → Dict.get "engine_id" s.normalized ≡ some (str t)
      → Settles "engine_id" s (check_engine_id t s)
  unfolding check_engine_id is_text_column within_limits Dict.get str_len
  check_engine_id-Settles t s e =
      Settles-reset_if (string_exceeds_model_limit "engine_id" t) "engine_id" (str "") (str t) s
        refl (λ h. within_limits_str "engine_id" t refl h) e

  short_ref :
      (t : String)
      → ltb group_ref_max_length (str_len t) ≡ false
      → within_limits "group_ref" (str t) ≡ true
  unfolding within_limits
  short_ref t h = ground arith

  check_group_ref-Settles :
      (t : String) (s : Notes)
      → Dict.get "group_ref" s.normalized ≡ some (str t)
      → Settles "group_ref" s (check_group_ref t s)
  unfolding check_group_ref within_limits str_len
  check_group_ref-Settles t s e = elim (Bool-cases (ltb group_ref_max_length (str_len t))) [
    | inl long ↦
        rw long (Settles-store "group_ref" "group_ref exceeds storage limit" (str "") s refl)
    | inr short ↦ rw short (Settles-same "group_ref" (str t) s s refl e (short_ref t short))
  ]

  -- An entry of a dict, read by its key.
  from_entries :
      (pending : List String) (d : Dict.Dict String Value)
      → All
          (λ (kv : String × Value). contains kv.0 pending ≡ false → within_limits kv.0 kv.1 ≡ true)
          d
      → (field : String) (v : Value) → contains field pending ≡ false
      → Dict.get field d ≡ some v
      → within_limits field v ≡ true
  unfolding Dict.get
  from_entries pending [] h field v fresh e = cc
  from_entries pending ((k, w) ∷ d) h field v fresh e = elim (Bool-cases (k == field)) [
    | inl same ↦
        let p : k ≡ field = (string_eq.same_iff k field).0 same in
        let q : w ≡ v = ground (arith, rw same at e) in rw (← p, ← q) (h.0 (rw p fresh))
    | inr other ↦ from_entries pending d h.1 field v fresh (rw other at e)
  ]

  bounded-within_limits :
      (value : Value) (field : String)
      → is_text_column field ≡ true
      → within_limits field (str (bounded_str_or_empty value field).0) ≡ true
  unfolding bounded_str_or_empty
  bounded-within_limits (str t) field p =
      ground (arith, within_limits_empty field p, within_limits_str field t p)
  bounded-within_limits null field p = within_limits_empty field p
  bounded-within_limits _ field p = within_limits_empty field p

  initial-IsWithinLimitsBut :
      (event : Fields)
      → IsWithinLimitsBut ("seq" ∷ "wall_time_ms" ∷ "engine_id" ∷ "group_ref" ∷ []) (initial event)
  unfolding initial within_limits Dict.get is_text_column str_len
  initial-IsWithinLimitsBut event = record {
    at =
        from_entries ("seq" ∷ "wall_time_ms" ∷ "engine_id" ∷ "group_ref" ∷ [])
          (initial event).normalized
          (
            λ _. bounded-within_limits (get "schema_version" event) "schema_version" refl,
            (
              λ _.
                  bounded-within_limits (get "recorder_session_id" event) "recorder_session_id"
                    refl,
              (λ _. refl, (λ p. cc, (λ p. cc, (λ _. refl, (λ p. cc, (λ p. cc, tt)))))),
            ),
          );
  }

  normalize_valid-IsWithinLimits :
      (event : Fields) → IsWithinLimits (normalize_valid event (initial event))
  unfolding normalize_valid initial Dict.get
  normalize_valid-IsWithinLimits event =
      let s0 = initial event in
      let s1 = check_seq (value_if_int (get "seq" event)) s0 in
      let s2 = check_wall_time (value_if_int (get "wall_time_ms" event)) s1 in
      let s3 = check_engine_id (value_if_str (get "engine_id" event)) s2 in
      let c1 = check_seq-Settles (value_if_int (get "seq" event)) s0 refl in
      let h1 = settle "seq" _ s0 s1 (initial-IsWithinLimitsBut event) c1 in
      let c2 =
        check_wall_time-Settles (value_if_int (get "wall_time_ms" event)) s1
          (c1.others "wall_time_ms" refl) in
      let h2 = settle "wall_time_ms" _ s1 s2 h1 c2 in
      let c3 =
        check_engine_id-Settles (value_if_str (get "engine_id" event)) s2
          (c2.others "engine_id" refl ∙ c1.others "engine_id" refl) in
      let h3 = settle "engine_id" _ s2 s3 h2 c3 in
      let s4 = check_group_ref (value_if_str (get "group_ref" event)) s3 in
      let c4 =
        check_group_ref-Settles (value_if_str (get "group_ref" event)) s3
          (c3.others "group_ref" refl ∙ c2.others "group_ref" refl ∙ c1.others "group_ref" refl) in
      let h4 = settle "group_ref" _ s3 s4 h3 c4 in
      let h5 : IsWithinLimits s4 = record { at = λ j v e. h4.at j v refl e } in
      (Keeps-normalize_event_kind (get "kind" event)).keep _
        ((Keeps-normalize_context (get "context" event)).keep _ h5)

  -- Whatever event passes the schema test, each entry of the normalized dict is a column of
  -- AuditEvent, with a value of the column's type within its limits: a text within the column's
  -- length, the group reference within 512 characters, an integer within the column's range, a time
  -- up to the year 2100, one message id of exactly 64 hex digits. This does not bound the length of
  -- account_ref, the size of candidate_count and eligible_count, the content of a JSON column or
  -- which characters a text has.
  pub normalize_event-IsWithinLimits : (event : Fields) → IsWithinLimits (normalize_event event)
  unfolding normalize_event
  normalize_event-IsWithinLimits event = go (schema_error_code (obj event))
    where
      go : (o : Option String) → IsWithinLimits (normalize_unless o event)
      go (some code) = record { at = λ j v e. from_entries [] [] tt j v refl e }
      go none = normalize_valid-IsWithinLimits event
