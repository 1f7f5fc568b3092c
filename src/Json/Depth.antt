-- ===== src/Json/Depth.antt =====
-- `max_json_nesting_depth` of forensics/ingest.py: one pass over the characters of a line.
pub mod Balanced
use Prim.Native.Char.{code}
use goggles.Base.{
  ℕ, ◌+◌, ◌-◌, Char, String, Bool, true, false, ◌||◌, List, [], ◌∷◌, ltb, nat_beq, if◌then◌else◌,
}
use goggles.Base.Text.{chars}

-- The local variables of the loop.
pub record Scan : Type 0 where
  pub depth : ℕ
  pub max_depth : ℕ
  pub in_string : Bool
  pub escaped : Bool

-- ch == "x", for an ASCII character
abbrev pub is_code : ℕ → Char → Bool
is_code n c = nat_beq (code c) n

abbrev pub is_open : Char → Bool
is_open c = is_code b'[' c || is_code b'{' c

abbrev pub is_close : Char → Bool
is_close c = is_code b']' c || is_code b'}' c

-- One character inside a string literal.
unfoldable pub scan_string : Char → Scan → Scan
scan_string c s =
    if s.escaped
    then record s { escaped = false }
    else if is_code 92 c
    then record s { escaped = true }
    else if is_code 34 c
    then record s { in_string = false }
    else s

-- One character outside.
unfoldable pub scan_plain : Char → Scan → Scan
scan_plain c s =
    if is_code 34 c
    then record s { in_string = true }
    else if is_open c
    then (record s {
      depth = s.depth + 1;
      max_depth = if ltb s.max_depth (s.depth + 1) then s.depth + 1 else s.max_depth;
    })
    else if is_close c
    then (if ltb 0 s.depth then record s { depth = s.depth - 1 } else s)
    else s

unfoldable pub scan_char : Char → Scan → Scan
scan_char c s = if s.in_string then scan_string c s else scan_plain c s

unfoldable pub scan : List Char → Scan → Scan
scan [] s = s
scan (c ∷ cs) s = scan cs (scan_char c s)

abbrev pub start : Scan
start = record { depth = 0; max_depth = 0; in_string = false; escaped = false }

unfoldable pub max_json_nesting_depth : String → ℕ
max_json_nesting_depth raw = (scan (chars raw) start).max_depth
