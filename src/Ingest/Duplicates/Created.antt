-- ===== src/Ingest/Duplicates/Created.antt =====
-- No two rows of a recorder have the same line.
use goggles.Upload.Identity.{text_of}
use goggles.Upload.Parse.{ParsedLine}
use goggles.Ingest.Duplicates.{
  created_lines, duplicate_event_exists, remember_duplicate_event, note_engine, StoredRow,
  existing_duplicate_events, line_hashes, note_rows, is_considered,
}
use goggles.Base.Dict.{Dict}
use goggles.Base.{
  ◌+◌, String, ◌≡◌, refl, ap, ◌∙◌, inl, inr, Bool, true, false, not, ◌&&◌, ◌||◌, List, [], ◌∷◌,
  arith, if◌then◌else◌, Bool-cases, ◌==◌, length, any, select, All, All-map, contains, add,
  contains-add, string_eq,
}
use goggles.Base.Dict
use goggles.Base.Dict.Entries.{get_or-put}

-- Whether the line is noted for the engine.
abbrev pub is_noted : String → String → Dict String (List String) → Bool
is_noted line_hash engine_id existing = contains engine_id (Dict.get_or [] line_hash existing)

is_noted-note_engine :
    (h e k f : String) (existing : Dict String (List String))
    → is_noted k f (note_engine h e existing) ≡ ((h == k && e == f) || is_noted k f existing)
is_noted-note_engine h e k f existing =
    ap (contains f) (get_or-put [] h k (add e (Dict.get_or [] h existing)) existing)
    ∙ at_key (h == k) ((string_eq.same_iff h k).0)
  where
    at_key :
        (b : Bool)
        → (b ≡ true → h ≡ k)
        → contains f (if b then add e (Dict.get_or [] h existing) else Dict.get_or [] k existing)
          ≡ ((b && e == f) || is_noted k f existing)
    at_key true same =
        contains-add f e (Dict.get_or [] h existing)
        ∙ ap (λ j. e == f || is_noted j f existing) (same refl)
    at_key false same = refl

-- A line that passes the test is not noted, also where it names no engine.
passed_lem :
    (parsed : ParsedLine) (existing : Dict String (List String))
    → duplicate_event_exists parsed existing ≡ false
    → is_noted parsed.line_hash (text_of "engine_id" parsed) existing ≡ false
unfolding duplicate_event_exists
passed_lem parsed existing h = go (Dict.get_or [] parsed.line_hash existing) refl
  where
    go :
        (engines : List String)
        → Dict.get_or [] parsed.line_hash existing ≡ engines
        → contains (text_of "engine_id" parsed) engines ≡ false
    go [] e = refl
    go (x ∷ engines) e = ground arith

-- Another line, or another engine's.
abbrev pub differ : ParsedLine → ParsedLine → Bool
differ a b = not (a.line_hash == b.line_hash && text_of "engine_id" a == text_of "engine_id" b)

abbrev pub IsNew : Dict String (List String) → ParsedLine → Type 0
IsNew existing line = is_noted line.line_hash (text_of "engine_id" line) existing ≡ false

abbrev pub AllDiffer : List ParsedLine → Type 0
AllDiffer [] = Unit
AllDiffer (line ∷ lines) = All (λ other. differ line other ≡ true) lines × AllDiffer lines

behind :
    (parsed : ParsedLine) (existing : Dict String (List String)) (lines : List ParsedLine)
    → All (IsNew (remember_duplicate_event parsed existing)) lines
    → All (IsNew existing) lines × All (λ other. differ parsed other ≡ true) lines
unfolding remember_duplicate_event
behind parsed existing [] h = (tt, tt)
behind parsed existing (line ∷ lines) h =
    let seen =
      is_noted-note_engine parsed.line_hash (text_of "engine_id" parsed) line.line_hash
        (text_of "engine_id" line) existing in
    let (a, b) = behind parsed existing lines h.1 in
    ((ground (arith, h.0, seen), a), (ground (arith, h.0, seen), b))

created_lines_lem :
    (lines : List ParsedLine) (existing : Dict String (List String))
    → All (IsNew existing) (created_lines lines existing).0
      × AllDiffer (created_lines lines existing).0
unfolding created_lines
created_lines_lem [] existing = (tt, tt)
created_lines_lem (parsed ∷ lines) existing =
    elim (Bool-cases (duplicate_event_exists parsed existing)) [
      | inl dup ↦ rw dup (created_lines_lem lines existing)
      | inr passed ↦
          let (new, apart) = created_lines_lem lines (remember_duplicate_event parsed existing) in
          let (a, b) = behind parsed existing _ new in
          rw passed ((passed_lem parsed existing passed, a), (b, apart))
    ]

-- Whether a row of the line's recorder has the line already; with the flag, of a valid file.
abbrev pub is_stored : Bool → List StoredRow → ParsedLine → Bool
is_stored ignore_invalid_files rows line =
    any
      (λ row.
        (not ignore_invalid_files || row.file_is_valid)
        && (row.line_hash == line.line_hash && row.engine_id == text_of "engine_id" line))
      rows

is_noted-note_rows :
    (hashes : List String) (ignore : Bool) (line : ParsedLine) (rows : List StoredRow)
    (existing : Dict String (List String))
    → contains line.line_hash hashes ≡ true
    → is_noted line.line_hash
        (text_of "engine_id" line)
        (note_rows (select (is_considered hashes ignore) rows) existing)
      ≡ (is_stored ignore rows line || is_noted line.line_hash (text_of "engine_id" line) existing)
unfolding note_rows
is_noted-note_rows hashes ignore line [] existing h = refl
is_noted-note_rows hashes ignore line (row ∷ rows) existing h =
    elim (Bool-cases (is_considered hashes ignore row)) [
      | inl considered ↦ rw considered (
          is_noted-note_rows hashes ignore line rows
            (note_engine row.line_hash row.engine_id existing) h
          ∙ ground (
            arith,
            considered,
            is_noted-note_engine row.line_hash row.engine_id line.line_hash
                (text_of "engine_id" line) existing,
          ))
      | inr other ↦ rw other (
          is_noted-note_rows hashes ignore line rows existing h
          ∙ ground (arith, other, string_eq.same_iff row.line_hash line.line_hash))
    ]

-- The created lines are among the lines.
pub created_lines-All :
    (P : ParsedLine → Type 0) (lines : List ParsedLine) (existing : Dict String (List String))
    → All P lines
    → All P (created_lines lines existing).0
unfolding created_lines
created_lines-All P [] existing h = tt
created_lines-All P (parsed ∷ lines) existing h =
    elim (Bool-cases (duplicate_event_exists parsed existing)) [
      | inl dup ↦ rw dup (created_lines-All P lines existing h.1)
      | inr passed ↦ rw passed (h.0, created_lines-All P lines _ h.1)
    ]

line_hashes_lem :
    (lines : List ParsedLine)
    → All (λ line. contains line.line_hash (line_hashes lines) ≡ true) lines
line_hashes_lem [] = tt
line_hashes_lem (line ∷ lines) = (
  ground (
    arith,
    contains-add line.line_hash line.line_hash (line_hashes lines),
    string_eq.same_iff line.line_hash line.line_hash,
  ),
  All-map _ _ lines
      (λ other h.
        ground (arith, contains-add other.line_hash line.line_hash (line_hashes lines), h))
      (line_hashes_lem lines),
)

All-both :
    (P Q : ParsedLine → Type 0) (lines : List ParsedLine)
    → All P lines
    → All Q lines
    → All (λ line. P line × Q line) lines
All-both P Q [] h k = tt
All-both P Q (line ∷ lines) h k = ((h.0, k.0), All-both P Q lines h.1 k.1)

length-created_lines :
    (lines : List ParsedLine) (existing : Dict String (List String))
    → length (created_lines lines existing).0 + (created_lines lines existing).1 ≡ length lines
unfolding created_lines
length-created_lines [] existing = omega arith
length-created_lines (parsed ∷ lines) existing = ground (
  arith,
  length-created_lines lines existing,
  length-created_lines lines (remember_duplicate_event parsed existing),
)

-- Of an upload's lines, those that become rows differ from each other in their hash or their
-- engine, and none of them is stored for its engine already, of a valid file if invalid files are
-- ignored; each of the other lines is counted as a duplicate.
pub created_lines-AllDiffer :
    (lines : List ParsedLine) (ignore_invalid_files : Bool) (rows : List StoredRow)
    → let created =
        created_lines lines (existing_duplicate_events lines ignore_invalid_files rows) in
      AllDiffer created.0
      × All (λ line. is_stored ignore_invalid_files rows line ≡ false) created.0
      × (length created.0 + created.1 ≡ length lines)
unfolding existing_duplicate_events
created_lines-AllDiffer lines ignore rows =
    let existing = existing_duplicate_events lines ignore rows in
    let (new, apart) = created_lines_lem lines existing in
    (
      apart,
      All-map _ _ (created_lines lines existing).0
          (λ line (held, fresh).
            ground (arith, fresh, is_noted-note_rows (line_hashes lines) ignore line rows [] held))
          (All-both _ _ (created_lines lines existing).0
            (created_lines-All _ lines existing (line_hashes_lem lines)) new),
      length-created_lines lines existing,
    )
