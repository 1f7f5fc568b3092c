-- ===== src/Ingest/Transaction/Apart.antt =====
-- The rows of one upload carry the lines' hashes and engines, and no two share both.
use goggles.Ingest.Groups.{GroupKey}
use goggles.Ingest.Tables.{event_rows, file_is_valid, stored_rows, group_id_of}
use goggles.Ingest.Duplicates.Created.{AllDiffer, differ, is_stored}
use goggles.Normalize.Columns.{columns}
use goggles.Upload.Identity.{text_of}
use goggles.Base.Dict.{Dict}
use goggles.Ingest.Values.{
  copy_normalized, event_values, persisted_normalized_fields, text_at, envelope_values, put_if_some,
  values_of,
}
use goggles.Json.{Fields, Value, str, value_if_str, null}
use goggles.Ingest.Store.{EventRow, FileRow, GroupRow}
use goggles.Upload.Parse.{ParsedLine}
use goggles.Base.{
  ℕ, suc, String, ◌≡◌, refl, ap, ◌∙◌, Bool, true, false, Option, none, some, List, [], ◌∷◌, ◌++◌,
  map, arith, All, All-map, contains, contains-append, string_eq, pair_eq,
}
use goggles.Base.Dict

abbrev pub LineKey : Type 0
LineKey = String × String

abbrev pub line_key : ParsedLine → LineKey
line_key parsed = (parsed.line_hash, text_of "engine_id" parsed)

abbrev pub row_key : EventRow → LineKey
row_key row = (row.line_hash, text_at "engine_id" row)

-- The line held a JSON object.
abbrev pub has_event : Option Fields → Bool
has_event none = false
has_event (some event) = true

abbrev pub HasEvent : ParsedLine → Type 0
HasEvent parsed = has_event parsed.event_data ≡ true

get-copy_normalized :
    (k : String) (fields : List String) (normalized values : Dict String Value)
    → contains k fields ≡ false
    → Dict.get k (copy_normalized fields normalized values) ≡ Dict.get k values
unfolding copy_normalized
get-copy_normalized k [] normalized values h = refl
get-copy_normalized k (field ∷ fields) normalized values h =
    get-copy_normalized k fields normalized _ (ground arith) ∙ put_one (Dict.get field normalized)
  where
    put_one : (o : Option Value) → Dict.get k (put_if_some field o values) ≡ Dict.get k values
    put_one none = refl
    put_one (some v) = ground (arith, Dict.get-put field k v values)

row_key-event_values :
    (id file_id : ℕ) (parsed : ParsedLine) (group_id : Option ℕ)
    → HasEvent parsed
    → row_key (event_values id file_id parsed group_id) ≡ line_key parsed
unfolding event_values persisted_normalized_fields columns Dict.get value_if_str
row_key-event_values id file_id parsed group_id h = go parsed.event_data h
  where
    engine :
        Dict.get "engine_id"
          (copy_normalized persisted_normalized_fields parsed.normalized (envelope_values parsed))
        ≡ some (str (text_of "engine_id" parsed))
    engine =
        get-copy_normalized "engine_id" persisted_normalized_fields parsed.normalized
          (envelope_values parsed) refl

    go :
        (o : Option Fields)
        → has_event o ≡ true
        → ◌≡◌ {A = LineKey}
            (parsed.line_hash, value_if_str (Dict.get_or null "engine_id" (values_of o parsed)))
            (line_key parsed)
    go none k = absurd (ground arith)
    go (some event) k =
        ap
          (λ (o : Option Value).
            let v : Value = elim o [ none ↦ null | some w ↦ w ] in
            let key : LineKey = (parsed.line_hash, value_if_str v) in key)
          engine

pub row_key-event_rows :
    (id file_id : ℕ) (fallback : String) (groups_by_key : Dict GroupKey GroupRow)
    (lines : List ParsedLine)
    → All HasEvent lines
    → map row_key (event_rows id file_id fallback groups_by_key lines) ≡ map line_key lines
unfolding event_rows
row_key-event_rows id file_id fallback groups_by_key [] h = refl
row_key-event_rows id file_id fallback groups_by_key (parsed ∷ lines) h =
    ap (λ k. k ∷ map row_key (event_rows (suc id) file_id fallback groups_by_key lines))
      (row_key-event_values id file_id parsed (group_id_of fallback groups_by_key parsed) h.0)
    ∙ ap (λ ks. line_key parsed ∷ ks)
        (row_key-event_rows (suc id) file_id fallback groups_by_key lines h.1)

-- No key stands twice.
abbrev pub NoRepeat : List LineKey → Type 0
NoRepeat [] = Unit
NoRepeat (k ∷ ks) = (contains k ks ≡ false) × NoRepeat ks

not_in_map :
    (line : ParsedLine) (lines : List ParsedLine)
    → All (λ other. differ line other ≡ true) lines
    → contains (line_key line) (map line_key lines) ≡ false
not_in_map line [] h = refl
not_in_map line (other ∷ lines) h = ground (
  arith,
  not_in_map line lines h.1,
  h.0,
  string_eq.same_iff line.line_hash other.line_hash,
  string_eq.same_iff other.line_hash line.line_hash,
  string_eq.same_iff (text_of "engine_id" line) (text_of "engine_id" other),
  string_eq.same_iff (text_of "engine_id" other) (text_of "engine_id" line),
)

pub line_key-NoRepeat : (lines : List ParsedLine) → AllDiffer lines → NoRepeat (map line_key lines)
line_key-NoRepeat [] h = tt
line_key-NoRepeat (line ∷ lines) h = (not_in_map line lines h.0, line_key-NoRepeat lines h.1)

pub append-NoRepeat :
    (xs ys : List LineKey)
    → NoRepeat xs
    → NoRepeat ys
    → All (λ y. contains y xs ≡ false) ys
    → NoRepeat (xs ++ ys)
append-NoRepeat [] ys h k a = k
append-NoRepeat (x ∷ xs) ys h k a = (
  contains-append x xs ys ∙ ground (arith, h.0, outside x xs ys a),
  append-NoRepeat xs ys h.1 k (All-map _ _ ys (λ y b. ground arith) a),
)
  where
    outside :
        (x : LineKey) (xs ys : List LineKey)
        → All (λ y. contains y (x ∷ xs) ≡ false) ys
        → contains x ys ≡ false
    outside x xs [] b = refl
    outside x xs (y ∷ ys) (c, b) = ground (
      arith,
      outside x xs ys b,
      string_eq.same_iff x.0 y.0,
      string_eq.same_iff y.0 x.0,
      string_eq.same_iff x.1 y.1,
      string_eq.same_iff y.1 x.1,
    )

-- A row of a valid file counts as stored.
unfoldable pub Owned : List FileRow → EventRow → Type 0
Owned files event = file_is_valid event.audit_file_id files ≡ true

pub stored_key :
    (files : List FileRow) (events : List EventRow) (line : ParsedLine)
    → All (Owned files) events
    → is_stored true (stored_rows files events) line ≡ false
    → contains (line_key line) (map row_key events) ≡ false
unfolding Owned
stored_key files [] line o h = refl
stored_key files (event ∷ events) line o h = ground (arith, stored_key files events line o.1, o.0)

pub stored_keys :
    (files : List FileRow) (events : List EventRow) (lines : List ParsedLine)
    → All (Owned files) events
    → All (λ line. is_stored true (stored_rows files events) line ≡ false) lines
    → All (λ k. contains k (map row_key events) ≡ false) (map line_key lines)
stored_keys files events [] o h = tt
stored_keys files events (line ∷ lines) o h =
    (stored_key files events line o h.0, stored_keys files events lines o h.1)
