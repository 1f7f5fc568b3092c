-- ===== src/Normalize/Storable/Helpers.antt =====
-- Each `copy_*` helper keeps the columns within_limits, whatever the JSON object holds.
use goggles.Base.{
  ℕ, ◌≤◌, String, ◌≡◌, refl, Bool, true, false, not, ◌&&◌, Option, none, some, arith, if◌then◌else◌,
  all, contains, string_eq,
}
use goggles.Base.Dict
use goggles.Base.Text.{str_len, nonempty}
use goggles.Env.{FieldType, char, text, positive_integer, positive_big_integer, boolean, json, Env}
use goggles.Json.{
  null, str, get, Value, Fields, int, value_if_int, arr, is_none, items, value_if_str, is_hex,
  is_hex_str, bool, neg, float, constant, obj,
}
use goggles.Normalize.Columns.{columns, model_max_length, exceeds, model_int_field_max}
use goggles.Normalize.Copy.{
  string_exceeds_model_limit, copy_optional_str, int_exceeds_model_limit, store, unless, Norm,
  copy_context_str, copy_human_action_str, copy_int, copy_optional_int, copy_optional_int_list,
  copy_optional_msg_id_list, copy_optional_str_list, copy_str, when_list, when_int, when_str,
  is_str, fail,
}
use goggles.Normalize.Storable.{
  strict_columns, fits, within_limits, untested, Keeps, Keeps-store, Keeps-unless, Keeps-fail,
  Keeps-if, Keeps-skip,
}

abbrev is_text_type : Option FieldType → Bool
is_text_type (some (char n)) = true
is_text_type (some text) = true
is_text_type _ = false

abbrev is_int_type : Option FieldType → Bool
is_int_type (some positive_integer) = true
is_int_type (some positive_big_integer) = true
is_int_type _ = false

abbrev is_json_type : Option FieldType → Bool
is_json_type (some json) = true
is_json_type _ = false

-- A column for texts, for integers, for JSON.
unfoldable pub is_text_column : String → Bool
unfolding columns Dict.get
is_text_column field = not (contains field strict_columns) && is_text_type (Dict.get field columns)

unfoldable pub is_int_column : String → Bool
unfolding columns Dict.get
is_int_column field = not (contains field strict_columns) && is_int_type (Dict.get field columns)

unfoldable pub is_json_column : String → Bool
unfolding columns Dict.get
is_json_column field = not (contains field strict_columns) && is_json_type (Dict.get field columns)

elsewhere :
    (is_id kind_ok hex rest : Bool)
    → (not is_id && kind_ok) ≡ true
    → (kind_ok ≡ true → rest ≡ true)
    → (if is_id then hex else rest) ≡ true
elsewhere is_id kind_ok hex rest p h = ground (arith, h)

module _ ⦃env : Env⦄ where
  fits_str :
      (test : Bool) (t : Option FieldType) (value : String)
      → is_text_type t ≡ true
      → ((n : ℕ) → t ≡ some (char n) → str_len value ≤ n)
      → fits test t (str value) ≡ true
  fits_str test none value p h = cc
  fits_str test (some (char n)) value p h = ground (arith, h n refl)
  fits_str test (some text) value p h = refl
  fits_str test (some positive_integer) value p h = cc
  fits_str test (some positive_big_integer) value p h = cc
  fits_str test (some boolean) value p h = cc
  fits_str test (some json) value p h = cc

  within :
      (t : Option FieldType) (field value : String) (n : ℕ)
      → t ≡ some (char n)
      → Dict.get field columns ≡ t
      → string_exceeds_model_limit field value ≡ none
      → str_len value ≤ n
  unfolding string_exceeds_model_limit model_max_length
  within t field value n e g h = ground arith

  pub within_limits_str :
      (field value : String)
      → is_text_column field ≡ true
      → string_exceeds_model_limit field value ≡ none
      → within_limits field (str value) ≡ true
  unfolding within_limits is_text_column
  within_limits_str field value p h = elsewhere (contains field strict_columns) _ _ _ p (λ q.
      fits_str (not (contains field untested)) (Dict.get field columns) value q
        (λ n e. within (Dict.get field columns) field value n e refl h))

  pub within_limits_empty :
      (field : String) → is_text_column field ≡ true → within_limits field (str "") ≡ true
  unfolding within_limits is_text_column str_len
  within_limits_empty field p = elsewhere (contains field strict_columns) _ _ _ p (λ q.
      fits_str (not (contains field untested)) (Dict.get field columns) "" q (λ n e. omega arith))

  fits_int :
      (test : Bool) (t : Option FieldType) (o : Option ℕ) (value : ℕ)
      → is_int_type t ≡ true
      → ((u : FieldType) → t ≡ some u → exceeds (env.integer_field_max u) value ≡ false)
      → fits test t (int value) ≡ true
  fits_int test none o value p h = cc
  fits_int test (some (char n)) o value p h = cc
  fits_int test (some text) o value p h = cc
  fits_int test (some positive_integer) o value p h = ground (arith, h positive_integer refl)
  fits_int test (some positive_big_integer) o value p h =
      ground (arith, h positive_big_integer refl)
  fits_int test (some boolean) o value p h = cc
  fits_int test (some json) o value p h = cc

  below :
      (t : Option FieldType) (u : FieldType) (field model_field : String) (value : ℕ)
      → t ≡ some u
      → Dict.get model_field columns ≡ t
      → int_exceeds_model_limit field model_field value ≡ none
      → exceeds (env.integer_field_max u) value ≡ false
  unfolding int_exceeds_model_limit model_int_field_max
  below t u field model_field value e g h = ground arith

  pub within_limits_int :
      (field model_field : String) (value : ℕ)
      → is_int_column model_field ≡ true
      → int_exceeds_model_limit field model_field value ≡ none
      → within_limits model_field (int value) ≡ true
  unfolding within_limits is_int_column
  within_limits_int field model_field value p h =
      elsewhere (contains model_field strict_columns) _ _ _ p (λ q.
        fits_int (not (contains model_field untested)) (Dict.get model_field columns) none value q
          (λ u e. below (Dict.get model_field columns) u field model_field value e refl h))

  fits_json :
      (test : Bool) (t : Option FieldType) (v : Value)
      → is_json_type t ≡ true
      → fits test t v ≡ true
  fits_json test none v p = cc
  fits_json test (some (char n)) v p = cc
  fits_json test (some text) v p = cc
  fits_json test (some positive_integer) v p = cc
  fits_json test (some positive_big_integer) v p = cc
  fits_json test (some boolean) v p = cc
  fits_json test (some json) v p = refl

  pub within_limits_json :
      (field : String) (v : Value) → is_json_column field ≡ true → within_limits field v ≡ true
  unfolding within_limits is_json_column
  within_limits_json field v p =
      elsewhere (contains field strict_columns) _ _ _ p
        (λ q. fits_json (not (contains field untested)) (Dict.get field columns) v q)

  pub Keeps-store_str :
      (field value : String)
      → is_text_column field ≡ true
      → Keeps (unless (string_exceeds_model_limit field value) (store field (str value)))
  Keeps-store_str field value p =
      Keeps-unless (string_exceeds_model_limit field value) (store field (str value))
        (λ h. Keeps-store field (str value) (within_limits_str field value p h))

  pub Keeps-store_int :
      (field model_field : String) (value : ℕ)
      → is_int_column model_field ≡ true
      → Keeps
          (unless (int_exceeds_model_limit field model_field value) (store model_field (int value)))
  Keeps-store_int field model_field value p =
      Keeps-unless (int_exceeds_model_limit field model_field value) (store model_field (int value))
        (λ h. Keeps-store model_field (int value) (within_limits_int field model_field value p h))

  pub Keeps-store_json :
      (field : String) (v : Value) → is_json_column field ≡ true → Keeps (store field v)
  Keeps-store_json field v p = Keeps-store field v (within_limits_json field v p)

  pub Keeps-when_str :
      (v : Value) (write : String → Norm) (otherwise : Norm)
      → ((t : String) → Keeps (write t))
      → Keeps otherwise
      → Keeps (when_str v write otherwise)
  Keeps-when_str null write otherwise kw ko = Keeps-skip
  Keeps-when_str (str value) write otherwise kw ko = kw value
  Keeps-when_str _ write otherwise kw ko = ko

  pub Keeps-when_list :
      (v : Value) (test : Value → Bool) (dest message : String)
      → is_json_column dest ≡ true
      → Keeps (when_list v test dest message)
  Keeps-when_list null test dest message p = Keeps-skip
  Keeps-when_list (arr values) test dest message p =
      Keeps-if (all test (items values)) (store dest (arr values)) (fail message)
        (λ _. Keeps-store_json dest (arr values) p) (λ _. Keeps-fail message)
  Keeps-when_list _ test dest message p = Keeps-fail message

  pub Keeps-when_int :
      (o : Option ℕ) (write : ℕ → Norm) (otherwise : Norm)
      → ((n : ℕ) → Keeps (write n))
      → Keeps otherwise
      → Keeps (when_int o write otherwise)
  Keeps-when_int none write otherwise kw ko = ko
  Keeps-when_int (some n) write otherwise kw ko = kw n

  module _ (kind : Fields) (field dest : String) where
    pub Keeps-copy_optional_str :
        is_text_column dest ≡ true → Keeps (copy_optional_str kind field dest)
    unfolding copy_optional_str
    Keeps-copy_optional_str p =
        Keeps-when_str (get field kind) _ _ (λ t. Keeps-store_str dest t p) (Keeps-fail _)

    pub Keeps-copy_human_action_str :
        is_text_column dest ≡ true → Keeps (copy_human_action_str kind field dest)
    unfolding copy_human_action_str
    Keeps-copy_human_action_str p =
        Keeps-when_str (get field kind) _ _ (λ t. Keeps-store_str dest t p) (Keeps-fail _)

    pub Keeps-copy_context_str :
        is_text_column dest ≡ true → Keeps (copy_context_str kind field dest)
    unfolding copy_context_str
    Keeps-copy_context_str p =
        Keeps-if (is_str (get field kind)) _ _ (λ _. Keeps-store_str dest _ p) (λ _. Keeps-fail _)

    pub Keeps-copy_str : is_text_column dest ≡ true → Keeps (copy_str kind field dest)
    unfolding copy_str
    Keeps-copy_str p =
        Keeps-if (not (nonempty (value_if_str (get field kind)))) _ _ (λ _. Keeps-fail _)
          (λ _. Keeps-store_str dest _ p)

    pub Keeps-copy_optional_str_list :
        is_json_column dest ≡ true → Keeps (copy_optional_str_list kind field dest)
    unfolding copy_optional_str_list
    Keeps-copy_optional_str_list p = Keeps-when_list (get field kind) _ dest _ p

    pub Keeps-copy_optional_int_list :
        is_json_column dest ≡ true → Keeps (copy_optional_int_list kind field dest)
    unfolding copy_optional_int_list
    Keeps-copy_optional_int_list p = Keeps-when_list (get field kind) _ dest _ p

    pub Keeps-copy_optional_msg_id_list :
        is_json_column dest ≡ true → Keeps (copy_optional_msg_id_list kind field dest)
    unfolding copy_optional_msg_id_list
    Keeps-copy_optional_msg_id_list p = Keeps-when_list (get field kind) _ dest _ p

    pub Keeps-copy_optional_int :
        is_int_column dest ≡ true → Keeps (copy_optional_int kind field dest)
    unfolding copy_optional_int
    Keeps-copy_optional_int p =
        Keeps-if (is_none (get field kind)) _ _ (λ _. Keeps-skip)
          (λ _.
            Keeps-when_int (value_if_int (get field kind)) _ _ (λ n. Keeps-store_int field dest n p)
              (Keeps-fail _))

  pub Keeps-copy_int :
      (kind : Fields) (field : String) → is_int_column field ≡ true → Keeps (copy_int kind field)
  unfolding copy_int
  Keeps-copy_int kind field p =
      Keeps-when_int (value_if_int (get field kind)) _ _ (λ n. Keeps-store_int field field n p)
        (Keeps-fail _)

  pub is_hex_cases :
      (v : Value) → is_hex (some 64) v ≡ true → (t : String) × (v ≡ str t) × (str_len t ≡ 64)
  unfolding is_hex
  is_hex_cases (str t) h = (t, refl, hex_len t h)
    where
      hex_len : (t : String) → is_hex_str (some 64) t ≡ true → str_len t ≡ 64
      hex_len String.[] h = cc
      hex_len (String.◌∷◌ c t) h = ground arith
  is_hex_cases null h = cc
  is_hex_cases (bool b) h = cc
  is_hex_cases (int n) h = cc
  is_hex_cases (neg n) h = cc
  is_hex_cases (float t) h = cc
  is_hex_cases (constant t) h = cc
  is_hex_cases (arr vs) h = cc
  is_hex_cases (obj fs) h = cc
