-- ===== src/Upload/Identity.antt =====
-- `has_inconsistent_identity` of forensics/ingest.py.
pub mod Common
use goggles.Base.{
  String, Bool, false, not, ◌||◌, Option, none, some, List, [], ◌∷◌, if◌then◌else◌, ◌==◌, string_eq,
}
use goggles.Base.Dict
use goggles.Base.Text.{nonempty}
use goggles.Json.{null, value_if_str}
use goggles.Upload.Parse.{ParsedLine}

-- line.normalized.get(field), where the column holds a text.
abbrev pub text_of : String → ParsedLine → String
text_of field line = value_if_str (Dict.get_or null field line.normalized)

abbrev pub differs : Option String → String → Bool
differs none value = false
differs (some first) value = not (value == first)

-- The inner loop for one field; `first` is None until a line names a value.
unfoldable pub mixed_from : String → Option String → List ParsedLine → Bool
mixed_from field first [] = false
mixed_from field first (line ∷ lines) =
    let value = text_of field line in
    if nonempty value
    then differs first value || mixed_from field (some value) lines
    else mixed_from field first lines

unfoldable pub has_inconsistent_identity : List ParsedLine → Bool
unfolding mixed_from
has_inconsistent_identity lines =
    mixed_from "engine_id" none lines || mixed_from "account_ref" none lines
