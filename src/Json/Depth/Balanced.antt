-- ===== src/Json/Depth/Balanced.antt =====
-- The depth scan of forensics/ingest.py against texts with balanced brackets: every JSON text is
-- one, whatever its white space, numbers and escapes are.
use goggles.Base.Text.{chars}
use goggles.Base.{
  ℕ, suc, ◌+◌, ◌≤◌, max, Char, String, ◌≡◌, refl, ap, ◌∙◌, true, false, List, [], ◌∷◌, ◌++◌, arith,
}
use goggles.Json.Depth.{
  Scan, is_code, is_open, is_close, scan_string, scan_plain, scan_char, scan, start,
  max_json_nesting_depth,
}

abbrev quote : Char
quote = "\""

abbrev backslash : Char
backslash = "\\"

-- What stands between the quotes of a string literal: plain characters, and escape pairs.
pub data Literal : Type 0 where
  done : Literal
  plain : (c : Char) → is_code 34 c ≡ false → is_code 92 c ≡ false → Literal → Literal
  escape : Char → Literal → Literal

-- A text in which every bracket is closed.
pub data Balanced : Type 0 where
  done : Balanced
  other :
      (c : Char)
      → is_code 34 c ≡ false
      → is_open c ≡ false
      → is_close c ≡ false
      → Balanced
      → Balanced
  literal : Literal → Balanced → Balanced
  nested :
      (open_c close_c : Char)
      → is_open open_c ≡ true
      → is_close close_c ≡ true
      → Balanced
      → Balanced
      → Balanced

unfoldable pub spell_literal : Literal → List Char
spell_literal done = []
spell_literal (plain c _ _ l) = c ∷ spell_literal l
spell_literal (escape c l) = backslash ∷ c ∷ spell_literal l

unfoldable pub spell : Balanced → List Char
spell done = []
spell (other c _ _ _ b) = c ∷ spell b
spell (literal l b) = quote ∷ (spell_literal l ++ (quote ∷ spell b))
spell (nested o c _ _ inner b) = o ∷ (spell inner ++ (c ∷ spell b))

-- How deep the brackets nest.
unfoldable pub depth : Balanced → ℕ
depth done = 0
depth (other c _ _ _ b) = depth b
depth (literal l b) = depth b
depth (nested o c _ _ inner b) = max (suc (depth inner)) (depth b)

abbrev at : ℕ → ℕ → Scan
at d m = record { depth = d; max_depth = m; in_string = false; escaped = false }

abbrev inside : ℕ → ℕ → Scan
inside d m = record { depth = d; max_depth = m; in_string = true; escaped = false }

scan-append : (cs ds : List Char) (s : Scan) → scan (cs ++ ds) s ≡ scan ds (scan cs s)
unfolding scan
scan-append [] ds s = refl
scan-append (c ∷ cs) ds s = scan-append cs ds (scan_char c s)

plain_inside :
    (c : Char) (d m : ℕ)
    → is_code 34 c ≡ false
    → is_code 92 c ≡ false
    → scan_char c (inside d m) ≡ inside d m
unfolding scan_char scan_string
plain_inside c d m p q = ground arith

scan-literal : (l : Literal) (d m : ℕ) → scan (spell_literal l) (inside d m) ≡ inside d m
unfolding scan scan_char scan_string spell_literal
scan-literal done d m = refl
scan-literal (plain c p q l) d m =
    ap (scan (spell_literal l)) (plain_inside c d m p q) ∙ scan-literal l d m
scan-literal (escape c l) d m = scan-literal l d m

other_at :
    (c : Char) (d m : ℕ)
    → is_code 34 c ≡ false
    → is_open c ≡ false
    → is_close c ≡ false
    → scan_char c (at d m) ≡ at d m
unfolding scan_char scan_plain
other_at c d m p q r = ground arith

open_at :
    (c : Char) (d m : ℕ) → is_open c ≡ true → scan_char c (at d m) ≡ at (d + 1) (max m (d + 1))
unfolding scan_char scan_plain
open_at c d m p = ground arith

close_at : (c : Char) (d m : ℕ) → is_close c ≡ true → scan_char c (at (d + 1) m) ≡ at d m
unfolding scan_char scan_plain
close_at c d m p = ground arith

-- The scan of a balanced text leaves the depth and raises the maximum by the text's own depth.
scan-spell : (b : Balanced) (d m : ℕ) → d ≤ m → scan (spell b) (at d m) ≡ at d (max m (d + depth b))
unfolding scan spell depth scan_char scan_string scan_plain
scan-spell done d m h = ap (at d) (omega arith)
scan-spell (other c p q r b) d m h = ap (scan (spell b)) (other_at c d m p q r) ∙ scan-spell b d m h
scan-spell (literal l b) d m h =
    scan-append (spell_literal l) (quote ∷ spell b) (inside d m)
    ∙ ap (scan (quote ∷ spell b)) (scan-literal l d m)
    ∙ scan-spell b d m h
scan-spell (nested o c p q inner b) d m h =
    ap (scan (spell inner ++ (c ∷ spell b))) (open_at o d m p)
    ∙ scan-append (spell inner) (c ∷ spell b) (at (d + 1) (max m (d + 1)))
    ∙ ap (scan (c ∷ spell b)) (scan-spell inner (d + 1) (max m (d + 1)) (omega arith))
    ∙ ap (scan (spell b)) (close_at c d (max (max m (d + 1)) (d + 1 + depth inner)) q)
    ∙ scan-spell b d (max (max m (d + 1)) (d + 1 + depth inner)) (omega arith)
    ∙ ap (at d) (omega arith)

-- On a text that spells balanced brackets, the scan returns the depth at which they nest.
pub max_json_nesting_depth-balanced :
    (b : Balanced) (raw : String) → chars raw ≡ spell b → max_json_nesting_depth raw ≡ depth b
unfolding max_json_nesting_depth
max_json_nesting_depth-balanced b raw e =
    ap (λ cs. (scan cs start).max_depth) e
    ∙ ap (λ (s : Scan). s.max_depth) (scan-spell b 0 0 (omega arith))
    ∙ omega arith
