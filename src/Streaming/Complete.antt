-- ===== src/Streaming/Complete.antt =====
-- The export fails closed.
use goggles.Base.Dict
use goggles.Base.Dict.{Dict}
use goggles.Streaming.{
  Line, stream_ndjson, stream_rows, stream_sections, ExportSection, eof, after_rows, manifest,
  error,
}
use goggles.Base.{
  ℕ, suc, String, ◌≡◌, refl, ◌∙◌, Bool, true, false, ◌&&◌, Option, none, some, List, [], ◌∷◌, ◌++◌,
  all, string_eq,
}

abbrev pub is_eof : Line → Bool
is_eof (eof counts) = true
is_eof _ = false

-- The reader's test: the last line is eof.
abbrev pub is_complete : List Line → Bool
is_complete [] = false
is_complete (line ∷ []) = is_eof line
is_complete (line ∷ next ∷ lines) = is_complete (next ∷ lines)

abbrev pub is_some : Option String → Bool
is_some none = false
is_some (some payload) = true

abbrev pub is_counted : Option ℕ → Bool
is_counted none = false
is_counted (some count) = true

stream_rows_lem :
    (t : String) (count : ℕ) (rows : List (Option String))
    → is_counted (stream_rows t count rows).1 ≡ all is_some rows
unfolding stream_rows
stream_rows_lem t count [] = refl
stream_rows_lem t count (none ∷ rows) = refl
stream_rows_lem t count (some payload ∷ rows) = stream_rows_lem t (suc count) rows

-- Lines before a last one do not decide.
is_complete-append :
    (lines : List Line) (line : Line) (rest : List Line)
    → is_complete (lines ++ line ∷ rest) ≡ is_complete (line ∷ rest)
is_complete-append [] line rest = refl
is_complete-append (x ∷ []) line rest = refl
is_complete-append (x ∷ y ∷ lines) line rest = is_complete-append (y ∷ lines) line rest

-- A nonempty list has its first line.
abbrev HasLine : List Line → Type 0
HasLine lines = (line : Line) × (rest : List Line) × (lines ≡ line ∷ rest)

append-HasLine : (xs ys : List Line) → HasLine ys → HasLine (xs ++ ys)
append-HasLine [] ys h = h
append-HasLine (x ∷ xs) ys h = (x, xs ++ ys, refl)

is_complete-behind : (xs ys : List Line) → HasLine ys → is_complete (xs ++ ys) ≡ is_complete ys
is_complete-behind xs ys (line, rest, e) = rw e (is_complete-append xs line rest)

after_rows-HasLine :
    (o : Option ℕ) (rest : ℕ → List Line)
    → ((count : ℕ) → HasLine (rest count))
    → HasLine (after_rows o rest)
after_rows-HasLine none rest h = (error, [], refl)
after_rows-HasLine (some count) rest h = h count

stream_sections-HasLine :
    (sections : List ExportSection) (counts : Dict String ℕ)
    → HasLine (stream_sections counts sections)
unfolding stream_sections
stream_sections-HasLine [] counts = (eof counts, [], refl)
stream_sections-HasLine (section ∷ sections) counts =
    append-HasLine (stream_rows section.record_type 0 section.rows).0 _ (
      after_rows-HasLine (stream_rows section.record_type 0 section.rows).1 _
        (λ count. stream_sections-HasLine sections (Dict.put section.record_type count counts)))

-- Behind a section's lines, the rest decides if the section was counted.
is_complete-after_rows :
    (lines : List Line) (o : Option ℕ) (rest : ℕ → List Line) (b c : Bool)
    → is_counted o ≡ b
    → ((count : ℕ) → HasLine (rest count))
    → ((count : ℕ) → is_complete (rest count) ≡ c)
    → is_complete (lines ++ after_rows o rest) ≡ (b && c)
is_complete-after_rows lines none rest b c e h k = is_complete-append lines error [] ∙ rw (← e) refl
is_complete-after_rows lines (some count) rest b c e h k =
    is_complete-behind lines (rest count) (h count) ∙ k count ∙ rw (← e) refl

stream_sections_lem :
    (sections : List ExportSection) (counts : Dict String ℕ)
    → is_complete (stream_sections counts sections)
      ≡ all (λ section. all is_some section.rows) sections
unfolding stream_sections
stream_sections_lem [] counts = refl
stream_sections_lem (section ∷ sections) counts =
    is_complete-after_rows (stream_rows section.record_type 0 section.rows).0
      (stream_rows section.record_type 0 section.rows).1 _ _ _
      (stream_rows_lem section.record_type 0 section.rows)
      (λ count. stream_sections-HasLine sections (Dict.put section.record_type count counts))
      (λ count. stream_sections_lem sections (Dict.put section.record_type count counts))

-- The export's last line is eof exactly if every row of every section was serialized.
pub is_complete-stream_ndjson :
    (sections : List ExportSection)
    → is_complete (stream_ndjson sections) ≡ all (λ section. all is_some section.rows) sections
unfolding stream_ndjson
is_complete-stream_ndjson sections =
    is_complete-behind (manifest ∷ []) (stream_sections [] sections)
      (stream_sections-HasLine sections [])
    ∙ stream_sections_lem sections []
