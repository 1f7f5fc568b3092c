-- ===== src/Normalize/Copy.antt =====
-- The `copy_*` helpers of forensics/ingest.py: each reads one member of a JSON object, and either
-- writes a column of `normalized` or appends to `errors`.
use goggles.Base.{
  ℕ, suc, String, ◌<>◌, Bool, true, false, not, ◌&&◌, Option, none, some, List, [], ◌∷◌, ◌++◌, ltb,
  if◌then◌else◌, ◌==◌, is_empty, all, string_eq, nat_eq,
}
use goggles.Base.Dict
use goggles.Base.Dict.{Dict}
use goggles.Base.Text.{str_len, nonempty, show}
use goggles.Env.{Env}
use goggles.Json.{
  Value, Fields, null, int, str, arr, obj, get, items, of_items, nil, cons, is_none, has_key,
  value_if_str, value_if_int, is_hex,
}
use goggles.Normalize.Columns.{model_max_length, model_int_field_max, exceeds}

-- The two objects that the helpers share and mutate.
pub record Notes : Type 0 where
  pub normalized : Dict String Value
  pub errors : List String

abbrev pub Norm : Type 0
Norm = Notes → Notes

infixl 5 ◌>>◌
abbrev pub ◌>>◌ : Norm → Norm → Norm
(f >> g) s = g (f s)

abbrev pub skip : Norm
skip s = s

-- errors.append(message)
abbrev pub fail : String → Norm
fail message s = record s { errors = s.errors ++ message ∷ [] }

-- normalized[field] = value
abbrev pub store : String → Value → Norm
store field v s = record s { normalized = Dict.put field v s.normalized }

abbrev pub msg_id_max_length : ℕ
msg_id_max_length = 512

-- string_exceeds_model_limit: the message that is appended, if the limit is exceeded.
unfoldable pub string_exceeds_model_limit : String → String → Option String
string_exceeds_model_limit field value = elim (model_max_length field) [
  | none ↦ none
  | some limit ↦
      if ltb limit (str_len value)
      then some (field <> (" must be at most " <> (show limit <> " characters")))
      else none
]

-- int_exceeds_model_limit: the limit is the model field's, the message names the source's.
unfoldable pub int_exceeds_model_limit : ⦃env : Env⦄ → String → String → ℕ → Option String
int_exceeds_model_limit field model_field value =
    if exceeds (model_int_field_max model_field) value
    then some (field <> " must be a non-negative integer within range")
    else none

-- Appends the message, or goes on.
abbrev pub unless : Option String → Norm → Norm
unless none write = write
unless (some message) write = fail message

unfoldable pub is_valid_message_id : Value → Bool
is_valid_message_id v = is_hex (some 64) v

abbrev pub message_id_requirement_label : String
message_id_requirement_label = "64 hex characters"

abbrev pub is_str : Value → Bool
is_str (str s) = true
is_str _ = false

abbrev pub is_int : Value → Bool
is_int (int n) = true
is_int _ = false

-- `if value is None: return`, then a test of the type: the message is for the other values.
abbrev pub when_str : Value → (String → Norm) → Norm → Norm
when_str null write otherwise = skip
when_str (str value) write otherwise = write value
when_str _ write otherwise = otherwise

abbrev pub when_list : Value → (Value → Bool) → String → String → Norm
when_list null test dest_field message = skip
when_list (arr values) test dest_field message =
    if all test (items values) then store dest_field (arr values) else fail message
when_list _ test dest_field message = fail message

abbrev pub when_int : Option ℕ → (ℕ → Norm) → Norm → Norm
when_int none write otherwise = otherwise
when_int (some n) write otherwise = write n

-- The tail of the text helpers: the limit, then the write.
abbrev pub store_str : String → String → Norm
store_str dest_field value =
    unless (string_exceeds_model_limit dest_field value) (store dest_field (str value))

-- Here a null is not a string.
unfoldable pub copy_context_str : Fields → String → String → Norm
copy_context_str source source_field dest_field =
    let message = "context." <> (source_field <> " must be a string when present") in
    if is_str (get source_field source)
    then store_str dest_field (value_if_str (get source_field source))
    else fail message

unfoldable pub copy_human_action_str : Fields → String → String → Norm
copy_human_action_str source source_field dest_field =
    when_str (get source_field source) (store_str dest_field)
      (fail ("human_action." <> (source_field <> " must be a string when present")))

unfoldable pub copy_optional_str_list : Fields → String → String → Norm
copy_optional_str_list source source_field dest_field =
    when_list (get source_field source) is_str dest_field
      (source_field <> " must be a list of strings when present")

unfoldable pub copy_optional_int_list : Fields → String → String → Norm
copy_optional_int_list source source_field dest_field =
    when_list (get source_field source) is_int dest_field
      ("human_action." <> (source_field <> " must be a list of non-negative integers"))

unfoldable pub copy_optional_msg_id_list : Fields → String → String → Norm
copy_optional_msg_id_list source source_field dest_field =
    when_list (get source_field source) is_valid_message_id dest_field
      ("human_action." <> (source_field <> (" must be a list of " <> message_id_requirement_label)))

unfoldable pub copy_msg_field : Fields → String → Bool → String → Norm
copy_msg_field kind field required dest_field =
    let value = get field kind in
    if is_none value
    then (if required then fail (field <> " is required") else skip)
    else if not (is_valid_message_id value)
    then fail (field <> (" must be " <> message_id_requirement_label))
    else if ltb msg_id_max_length (str_len (value_if_str value))
    then fail (field <> (" must be at most " <> (show msg_id_max_length <> " characters")))
    else store dest_field value

unfoldable pub copy_msg_id : Fields → Norm
unfolding copy_msg_field
copy_msg_id kind = copy_msg_field kind "msg_id" true "msg_id"

unfoldable pub copy_optional_msg_id : Fields → String → String → Norm
unfolding copy_msg_field
copy_optional_msg_id kind field dest_field = copy_msg_field kind field false dest_field

unfoldable pub copy_digest : Fields → String → Norm
copy_digest kind field =
    let value = get field kind in
    if is_hex (some 64) value
    then store field value
    else fail (field <> " must be 64 hex characters")

unfoldable pub copy_optional_digest : Fields → String → Norm
copy_optional_digest kind field =
    let value = get field kind in
    if is_none value
    then skip
    else if is_hex (some 64) value
    then store field value
    else fail (field <> " must be 64 hex characters")

unfoldable pub copy_str : Fields → String → String → Norm
copy_str kind field dest_field =
    let value = value_if_str (get field kind) in
    if not (nonempty value)
    then fail (field <> " must be a non-empty string")
    else store_str dest_field value

unfoldable pub copy_optional_str : Fields → String → String → Norm
copy_optional_str kind field dest_field =
    when_str (get field kind) (store_str dest_field)
      (fail (field <> " must be a string when present"))

module _ ⦃env : Env⦄ where
  -- The tail of the integer helpers.
  abbrev pub store_int : String → String → ℕ → Norm
  store_int field dest_field value =
      unless (int_exceeds_model_limit field dest_field value) (store dest_field (int value))

  unfoldable pub copy_int : Fields → String → Norm
  copy_int kind field =
      when_int (value_if_int (get field kind)) (store_int field field)
        (fail (field <> " must be a non-negative integer"))

  unfoldable pub copy_optional_int : Fields → String → String → Norm
  copy_optional_int kind field dest_field =
      if is_none (get field kind)
      then skip
      else when_int (value_if_int (get field kind)) (store_int field dest_field)
          (fail (field <> " must be a non-negative integer when present"))

  unfoldable pub copy_human_action_fields : Fields → Norm
  copy_human_action_fields source = do
    copy_human_action_str source "action" "human_action_action"
    copy_human_action_str source "origin" "human_action_origin"
    copy_human_action_str source "phase" "human_action_phase"
    copy_optional_str_list source "fields" "human_action_fields"
    copy_optional_int_list source "component_ids" "human_action_component_ids"
    copy_optional_int source "target_count" "human_action_target_count"
    copy_optional_msg_id_list source "message_ids" "human_action_message_ids"
    copy_optional_int source "from_epoch" "from_epoch"
    copy_optional_int source "to_epoch" "to_epoch"

  -- The single `relay_url` of older recorders stands for a list where `relay_urls` is missing.
  unfoldable pub copy_relay_url : Fields → Norm
  copy_relay_url kind =
      when_str (get "relay_url" kind)
        (λ url.
          if has_key "relay_urls" kind then skip else store "relay_urls" (arr (cons (str url) nil)))
        (fail "relay_url must be a string when present")

  unfoldable pub copy_publish_fields : Fields → Norm
  unfolding copy_relay_url
  copy_publish_fields kind = do
    copy_optional_msg_id kind "msg_id" "msg_id"
    copy_optional_str kind "target_kind" "target_kind"
    copy_optional_int kind "required_acks" "required_acks"
    copy_relay_url kind

-- The loop of copy_outbound_messages: the first message that is no welcome, and the welcomes.
pub record Outbound : Type 0 where
  pub outbound_msg_id : String
  pub welcome_ids : List Value

unfoldable pub outbound_message : ℕ → Value → Outbound × Notes → Outbound × Notes
outbound_message index (obj message) (out, s) =
    let msg_id = get "msg_id" message in
    let position = "outbound_messages[" <> (show index <> "].msg_id must be ") in
    if not (is_valid_message_id msg_id)
    then (out, fail (position <> message_id_requirement_label) s)
    else if ltb msg_id_max_length (str_len (value_if_str msg_id))
    then (out, fail (position <> ("at most " <> (show msg_id_max_length <> " characters"))) s)
    else if value_if_str (get "artifact_kind" message) == "welcome"
    then (record out { welcome_ids = out.welcome_ids ++ msg_id ∷ [] }, s)
    else if not (nonempty out.outbound_msg_id)
    then (record out { outbound_msg_id = value_if_str msg_id }, s)
    else (out, s)
outbound_message index _ (out, s) =
    (out, fail ("outbound_messages[" <> (show index <> "] must be an object")) s)

unfoldable pub outbound_loop : ℕ → List Value → Outbound × Notes → Outbound × Notes
outbound_loop index [] st = st
outbound_loop index (message ∷ rest) st =
    outbound_loop (suc index) rest (outbound_message index message st)

-- A Python value's truth, of what a column holds.
abbrev pub stored_text : String → Notes → Bool
stored_text field s = elim (Dict.get field s.normalized) [
  | none ↦ false
  | some v ↦ nonempty (value_if_str v)
]

abbrev pub store_outbound_id : Outbound → Notes → Norm
store_outbound_id out s =
    if nonempty out.outbound_msg_id && not (stored_text "outbound_msg_id" s)
    then store "outbound_msg_id" (str out.outbound_msg_id)
    else skip

abbrev pub store_welcomes : Outbound → Norm
store_welcomes out =
    if is_empty out.welcome_ids
    then skip
    else store "outbound_welcome_msg_ids" (arr (of_items out.welcome_ids))

unfoldable pub finish_outbound : Outbound × Notes → Notes
finish_outbound (out, s) = store_welcomes out (store_outbound_id out s s)

unfoldable pub copy_messages : Value → Norm
unfolding outbound_loop outbound_message finish_outbound
copy_messages null s = s
copy_messages (arr messages) s =
    finish_outbound
      (outbound_loop 0 (items messages) (record { outbound_msg_id = ""; welcome_ids = [] }, s))
copy_messages _ s = fail "outbound_messages must be a list when present" s

unfoldable pub copy_outbound_messages : Fields → Norm
unfolding copy_messages
copy_outbound_messages kind = copy_messages (get "outbound_messages" kind)
