-- ===== src/Normalize/Storable/Ids.antt =====
-- The helpers for message ids and digests keep the columns within their limits: a value of 64 hex digits
-- fits wherever they write it. So do the helpers made of several others.
use goggles.Base.{
  String, ◌≡◌, refl, inl, inr, Bool, true, false, not, ◌||◌, Option, none, some, arith, ltb, leb,
  if◌then◌else◌, Bool-cases, ◌==◌, contains, string_eq,
}
use goggles.Base.Dict
use goggles.Env.{FieldType, char, text, positive_integer, positive_big_integer, boolean, json, Env}
use goggles.Json.{get, Value, str, is_hex, Fields, is_none, value_if_str, has_key}
use goggles.Normalize.Columns.{columns}
use goggles.Normalize.Copy.{
  store, copy_digest, copy_human_action_fields, copy_msg_field, copy_msg_id, copy_optional_digest,
  copy_optional_msg_id, is_valid_message_id, msg_id_max_length, copy_publish_fields, copy_relay_url,
}
use goggles.Normalize.Storable.{
  strict_columns, Keeps, keeps_rules, Keeps-store, Keeps-skip, Keeps-fail, Keeps-if, fits,
  within_limits, untested, str_len,
}
use goggles.Normalize.Storable.Helpers.{
  Keeps-when_str, is_hex_cases, is_text_column, is_int_column, is_json_column,
  Keeps-copy_human_action_str, Keeps-copy_optional_str_list, Keeps-copy_optional_int_list,
  Keeps-copy_optional_int, Keeps-copy_optional_msg_id_list, Keeps-copy_optional_str,
  Keeps-store_json,
}

abbrev holds_hex : Option FieldType → Bool
holds_hex (some (char n)) = leb 64 n
holds_hex (some text) = true
holds_hex (some json) = true
holds_hex _ = false

-- A column that holds 64 hex digits.
unfoldable pub is_hex_column : String → Bool
unfolding columns Dict.get
is_hex_column field =
    if contains field strict_columns
    then not (field == "wall_time_ms" || field == "group_ref")
    else holds_hex (Dict.get field columns)

module _ ⦃env : Env⦄ where
  fits_hex :
      (test : Bool) (t : Option FieldType) (s : String)
      → holds_hex t ≡ true
      → str_len s ≡ 64
      → fits test t (str s) ≡ true
  fits_hex test none s p h = cc
  fits_hex test (some (char n)) s p h = ground arith
  fits_hex test (some text) s p h = refl
  fits_hex test (some positive_integer) s p h = cc
  fits_hex test (some positive_big_integer) s p h = cc
  fits_hex test (some boolean) s p h = cc
  fits_hex test (some json) s p h = refl

  within_limits_hex :
      (field : String) (v : Value)
      → is_hex_column field ≡ true
      → is_hex (some 64) v ≡ true
      → within_limits field v ≡ true
  unfolding within_limits is_hex_column
  within_limits_hex field v p h = elim (Bool-cases (contains field strict_columns)) [
    | inl strict ↦ rw strict (ground (arith, rw strict at p))
    | inr other ↦
        let (s, e, n) = is_hex_cases v h in
        rw (other, e)
          (fits_hex (not (contains field untested)) (Dict.get field columns) s (rw other at p) n)
  ]

  pub Keeps-store_hex :
      (field : String) (v : Value)
      → is_hex_column field ≡ true
      → is_hex (some 64) v ≡ true
      → Keeps (store field v)
  Keeps-store_hex field v p h = Keeps-store field v (within_limits_hex field v p h)

  module _ (kind : Fields) (field : String) where
    pub Keeps-copy_msg_field :
        (required : Bool) (dest : String)
        → is_hex_column dest ≡ true
        → Keeps (copy_msg_field kind field required dest)
    unfolding copy_msg_field is_valid_message_id
    Keeps-copy_msg_field required dest p =
        Keeps-if (is_none (get field kind)) _ _
          (λ _. Keeps-if required _ _ (λ _. Keeps-fail _) (λ _. Keeps-skip))
          (λ _.
            Keeps-if (not (is_hex (some 64) (get field kind))) _ _ (λ _. Keeps-fail _)
              (λ h.
                Keeps-if (ltb msg_id_max_length (str_len (value_if_str (get field kind)))) _ _
                  (λ _. Keeps-fail _)
                  (λ _. Keeps-store_hex dest (get field kind) p (ground arith))))

    pub Keeps-copy_optional_msg_id :
        (dest : String) → is_hex_column dest ≡ true → Keeps (copy_optional_msg_id kind field dest)
    unfolding copy_optional_msg_id
    Keeps-copy_optional_msg_id dest p = Keeps-copy_msg_field false dest p

    pub Keeps-copy_digest : is_hex_column field ≡ true → Keeps (copy_digest kind field)
    unfolding copy_digest
    Keeps-copy_digest p =
        Keeps-if (is_hex (some 64) (get field kind)) _ _
          (λ h. Keeps-store_hex field (get field kind) p h) (λ _. Keeps-fail _)

    pub Keeps-copy_optional_digest :
        is_hex_column field ≡ true → Keeps (copy_optional_digest kind field)
    unfolding copy_optional_digest
    Keeps-copy_optional_digest p =
        Keeps-if (is_none (get field kind)) _ _ (λ _. Keeps-skip)
          (λ _.
            Keeps-if (is_hex (some 64) (get field kind)) _ _
              (λ h. Keeps-store_hex field (get field kind) p h) (λ _. Keeps-fail _))

  pub Keeps-copy_msg_id : (kind : Fields) → Keeps (copy_msg_id kind)
  unfolding copy_msg_id is_hex_column
  Keeps-copy_msg_id kind = Keeps-copy_msg_field kind "msg_id" true "msg_id" refl

  pub Keeps-copy_human_action_fields : (source : Fields) → Keeps (copy_human_action_fields source)
  unfolding copy_human_action_fields is_text_column is_int_column is_json_column
  Keeps-copy_human_action_fields source =
      search
        (
          keeps_rules, Keeps-copy_human_action_str, Keeps-copy_optional_str_list,
          Keeps-copy_optional_int_list, Keeps-copy_optional_int, Keeps-copy_optional_msg_id_list,
        )
        depth 14

  Keeps-copy_relay_url : (kind : Fields) → Keeps (copy_relay_url kind)
  unfolding copy_relay_url is_json_column
  Keeps-copy_relay_url kind =
      Keeps-when_str (get "relay_url" kind) _ _
        (λ url.
          Keeps-if (has_key "relay_urls" kind) _ _ (λ _. Keeps-skip)
            (λ _. Keeps-store_json "relay_urls" _ refl))
        (Keeps-fail _)

  pub Keeps-copy_publish_fields : (kind : Fields) → Keeps (copy_publish_fields kind)
  unfolding copy_publish_fields is_text_column is_int_column is_json_column is_hex_column
  Keeps-copy_publish_fields kind =
      search
        (
          keeps_rules, Keeps-copy_optional_str, Keeps-copy_optional_int, Keeps-copy_optional_msg_id,
          Keeps-copy_relay_url,
        )
        depth 14
