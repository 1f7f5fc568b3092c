-- ===== src/Upload/Lines/Endings.antt =====
-- The records of a text are the lines that were written, whichever of LF and CRLF ends each.
use goggles.Base.{
  String, ◌<>◌, ◌≡◌, refl, ap, ◌∙◌, Bool, true, false, not, List, [], ◌∷◌, ◌++◌, map, arith,
  if◌then◌else◌, All, nat_eq, string_eq,
}
use text.Mathlib.TextLemmas.{cons-append, nil-append, append_assoc}
use goggles.Base.Text.{str_all}
use goggles.Upload.Lines.{is_lf, is_cr, split_lines, drop_cr, iter_jsonl_record_lines}

-- A line as it was written: without LF, and not ending in CR.
abbrev has_no_lf : String → Bool
has_no_lf s = str_all (λ c. not (is_lf c)) s

unfoldable pub ends_in_cr : String → Bool
ends_in_cr String.[] = false
ends_in_cr (String.◌∷◌ c String.[]) = is_cr c
ends_in_cr (String.◌∷◌ c (String.◌∷◌ d s)) = ends_in_cr (String.◌∷◌ d s)

pub record IsLine (s : String) : Type 0 where
  pub no_lf : has_no_lf s ≡ true
  pub no_cr : ends_in_cr s ≡ false

-- Lines before the last, each with whether CRLF ends it, and the last, which nothing ends.
pub written : List (String × Bool) → String → String
written [] last = last
written ((line, crlf) ∷ lines) last =
    line <> ((if crlf then "\r\n" else "\n") <> written lines last)

-- What a line becomes before its CR is dropped.
abbrev kept : Bool → String → String
kept true line = line <> "\r"
kept false line = line

split_lines_one : (s : String) → has_no_lf s ≡ true → split_lines s ≡ s ∷ []
unfolding split_lines
split_lines_one String.[] h = refl
split_lines_one (String.◌∷◌ c s) h = ground (arith, split_lines_one s)

drop_cr_none : (s : String) → ends_in_cr s ≡ false → drop_cr s ≡ s
unfolding drop_cr ends_in_cr
drop_cr_none String.[] h = refl
drop_cr_none (String.◌∷◌ c String.[]) h = ground arith
drop_cr_none (String.◌∷◌ c (String.◌∷◌ d s)) h = ap (String.◌∷◌ c) (drop_cr_none (String.◌∷◌ d s) h)

drop_cr_one : (s : String) → drop_cr (s <> "\r") ≡ s
unfolding drop_cr
drop_cr_one String.[] = refl
drop_cr_one (String.◌∷◌ c String.[]) = rw cons-append
drop_cr_one (String.◌∷◌ c (String.◌∷◌ d s)) =
    let ih = rw cons-append at (drop_cr_one (String.◌∷◌ d s)) in
    rw (cons-append, cons-append) (ap (String.◌∷◌ c) ih)

has_no_lf-cr : (s : String) → has_no_lf s ≡ true → has_no_lf (s <> "\r") ≡ true
has_no_lf-cr String.[] h = refl
has_no_lf-cr (String.◌∷◌ c s) h = rw cons-append (ground (arith, has_no_lf-cr s))

split_lines-append :
    (s rest : String)
    → has_no_lf s ≡ true
    → split_lines (s <> ("\n" <> rest)) ≡ s ∷ split_lines rest
unfolding split_lines
split_lines-append String.[] rest h = rw (nil-append, cons-append, nil-append)
split_lines-append (String.◌∷◌ c s) rest h =
    rw cons-append (ground (arith, split_lines-append s rest))

drop_cr-kept : (crlf : Bool) (s : String) → IsLine s → drop_cr (kept crlf s) ≡ s
drop_cr-kept true s h = drop_cr_one s
drop_cr-kept false s h = drop_cr_none s h.no_cr

kept-no_lf : (crlf : Bool) (s : String) → IsLine s → has_no_lf (kept crlf s) ≡ true
kept-no_lf true s h = has_no_lf-cr s h.no_lf
kept-no_lf false s h = h.no_lf

-- A line and its ending are the kept line and a LF.
ending-kept :
    (crlf : Bool) (s rest : String)
    → s <> ((if crlf then "\r\n" else "\n") <> rest) ≡ kept crlf s <> ("\n" <> rest)
ending-kept true s rest =
    rw (append_assoc s "\r" ("\n" <> rest)) (ap (λ t. s <> t) (append_assoc "\r" "\n" rest))
ending-kept false s rest = refl

-- The records of a text are exactly the lines written to it, whether LF or CRLF ends each.
pub iter_jsonl_record_lines-written :
    (lines : List (String × Bool)) (last : String)
    → All (λ l. IsLine l.0) lines
    → IsLine last
    → iter_jsonl_record_lines (written lines last) ≡ map (λ l. l.0) lines ++ last ∷ []
unfolding iter_jsonl_record_lines written
iter_jsonl_record_lines-written [] last h k =
    ap (map drop_cr) (split_lines_one last k.no_lf) ∙ ap (λ s. s ∷ []) (drop_cr_none last k.no_cr)
iter_jsonl_record_lines-written ((line, crlf) ∷ lines) last h k =
    ap (λ s. map drop_cr (split_lines s)) (ending-kept crlf line (written lines last))
    ∙ ap (map drop_cr)
        (split_lines-append (kept crlf line) (written lines last) (kept-no_lf crlf line h.0))
    ∙ ap (λ s. s ∷ map drop_cr (split_lines (written lines last))) (drop_cr-kept crlf line h.0)
    ∙ ap (λ r. line ∷ r) (iter_jsonl_record_lines-written lines last h.1 k)
