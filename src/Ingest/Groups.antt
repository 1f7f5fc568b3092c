-- ===== src/Ingest/Groups.antt =====
-- The group that a line is filed under: `group_key_for_parsed_line` and `group_slug_for_ref` of
-- forensics/ingest.py.
pub mod Slug
pub mod Find
pub mod Key
use goggles.Env.{Env}
use goggles.Json.{get}
use goggles.Normalize.Columns.{group_ref_max_length, group_slug_max_length}
use goggles.Upload.Identity.{text_of}
use goggles.Base.Text.{nonempty, str_len, str_take}
use goggles.Upload.Parse.{ParsedLine}
use goggles.Json.{Fields, Value, is_hex, is_none, str, value_if_str}
use goggles.Base.{
  ◌-◌, String, ◌<>◌, Bool, false, not, ◌&&◌, Option, none, some, leb, if◌then◌else◌, string_eq,
}

-- ("ref", value) and ("slug", value)
pub data GroupKey : Type 0 where
  by_ref : String → GroupKey
  by_slug : String → GroupKey

unfoldable pub valid_group_ref : Value → Bool
valid_group_ref value = is_hex none value && leb (str_len (value_if_str value)) group_ref_max_length

abbrev pub is_declared_invalid : Value → Bool
is_declared_invalid declared = if is_none declared then false else not (valid_group_ref declared)

abbrev pub declared_in : Option Fields → Bool
declared_in none = false
declared_in (some event) = is_declared_invalid (get "group_ref" event)

unfoldable pub declared_invalid_group_ref : ParsedLine → Bool
unfolding valid_group_ref
declared_invalid_group_ref parsed = declared_in parsed.event_data

abbrev pub fallback_key : String → Option GroupKey
fallback_key fallback_group_slug =
    if nonempty fallback_group_slug then some (by_slug fallback_group_slug) else none

-- Here "" is a fallback slug of None too.
unfoldable pub group_key_for_parsed_line : ParsedLine → String → Option GroupKey
unfolding declared_invalid_group_ref
group_key_for_parsed_line parsed fallback_group_slug =
    let group_ref = text_of "group_ref" parsed in
    if valid_group_ref (str group_ref)
    then some (by_ref group_ref)
    else if declared_invalid_group_ref parsed
    then none
    else fallback_key fallback_group_slug

abbrev pub slug_or_incoming : String → String
slug_or_incoming text = if nonempty text then text else "incoming"

module _ ⦃env : Env⦄ where
  abbrev pub shortened : String → String → String
  shortened text digest =
      str_take (group_slug_max_length - str_len digest - 1) text <> ("-" <> digest)

  unfoldable pub group_slug_for_ref : String → String
  group_slug_for_ref group_ref =
      let text = slug_or_incoming (env.slugify group_ref) in
      if leb (str_len text) group_slug_max_length
      then text
      else shortened text (str_take 32 (env.sha256_text group_ref))
