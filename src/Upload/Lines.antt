-- ===== src/Upload/Lines.antt =====
-- `iter_jsonl_record_lines` of forensics/ingest.py: records end at LF only, and one CR before it
-- is dropped.
pub mod Endings
use Prim.Native.Char.{code}
use goggles.Base.{Char, String, Bool, List, [], ◌∷◌, map, if◌then◌else◌, ◌==◌, nat_eq}

abbrev pub is_lf : Char → Bool
is_lf c = code c == 10

abbrev pub is_cr : Char → Bool
is_cr c = code c == 13

-- Puts a character in front of the first line.
abbrev pub extend_first : Char → List String → List String
extend_first c [] = (String.◌∷◌ c "") ∷ []
extend_first c (line ∷ lines) = (String.◌∷◌ c line) ∷ lines

-- raw_text.split("\n")
unfoldable pub split_lines : String → List String
split_lines String.[] = "" ∷ []
split_lines (String.◌∷◌ c s) =
    let rest = split_lines s in if is_lf c then "" ∷ rest else extend_first c rest

-- `if raw_line.endswith("\r"): raw_line = raw_line[:-1]`
unfoldable pub drop_cr : String → String
drop_cr String.[] = ""
drop_cr (String.◌∷◌ c String.[]) = if is_cr c then "" else String.◌∷◌ c ""
drop_cr (String.◌∷◌ c (String.◌∷◌ d s)) = String.◌∷◌ c (drop_cr (String.◌∷◌ d s))

unfoldable pub iter_jsonl_record_lines : String → List String
iter_jsonl_record_lines raw_text = map drop_cr (split_lines raw_text)
