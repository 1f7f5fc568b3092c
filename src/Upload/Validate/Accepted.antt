-- ===== src/Upload/Validate/Accepted.antt =====
-- What an accepted upload is, and that a refusal shows nothing of the data.
use goggles.Base.Text.{nonempty}
use goggles.Normalize.Storable.Rows.{normalize_event-IsWithinLimits}
use goggles.Upload.Lines.{iter_jsonl_record_lines}
use goggles.Json.{Value, obj, null}
use goggles.Normalize.Storable.{IsWithinLimits}
use goggles.Upload.Parse.Records.{records, parse_jsonl-records}
use goggles.Base.Dict
use mathlib.Core.Path.{subst}
use goggles.Base.{
  ℕ, suc, ◌≤◌, String, ◌≡◌, refl, sym, ap, ◌∙◌, ◌↔◌, inl, inr, Bool, true, false, Option, none,
  some, List, [], ◌∷◌, arith, ltb, if◌then◌else◌, Bool-cases, length, is_empty, All, contains,
  nat_eq, string_eq,
}
use goggles.Env.{Env}
use goggles.Normalize.Copy.{Notes}
use goggles.Upload.Parse.{ParsedLine, parse_jsonl, line_of, parse_line}
use goggles.Upload.Identity.{has_inconsistent_identity}
use goggles.Upload.Validate.{
  accepted, rejected, reported_code, first_error, judge_lines, judge_text, validate_upload, report,
  reportable, judge_parsed, Verdict, judge_identity,
}

-- The codes that may leave the parser.
abbrev pub operational_codes : List String
operational_codes =
    "too_large" ∷ "invalid_utf8" ∷ "processing_limit" ∷ "empty_upload" ∷ "unsupported_schema"
    ∷ "invalid_v4_schema" ∷ "invalid_json_object" ∷ "invalid_json" ∷ "storage_limit_exceeded"
    ∷ "inconsistent_file_identity" ∷ []

abbrev pub IsClean : ParsedLine → Type 0
IsClean line = line.errors ≡ []

report-none :
    {P : Type 0} (es : List String) (later : Option (String × ℕ)) (n : ℕ)
    → (later ≡ none) ↔ P
    → (report es n later ≡ none) ↔ ((es ≡ []) × P)
report-none [] later n ih = (λ h. (refl, ih.0 h), λ h. ih.1 h.1)
report-none (x ∷ es) later n ih = (λ h. cc, λ h. cc (h.0))

first_error-none : (lines : List ParsedLine) → (first_error lines ≡ none) ↔ All IsClean lines
unfolding first_error
first_error-none [] = (λ _. tt, λ _. refl)
first_error-none (line ∷ lines) =
    report-none line.errors (first_error lines) line.line_number (first_error-none lines)

reported_code-operational : (code : String) → contains (reported_code code) operational_codes ≡ true
reported_code-operational code = elim (Bool-cases (contains code reportable)) [
  | inl p ↦ rw p (ground arith)
  | inr p ↦ rw p refl
]

report-operational :
    (code : String) (n m : ℕ) (es : List String) (later : Option (String × ℕ))
    → (later ≡ some (code, n) → contains code operational_codes ≡ true)
    → report es m later ≡ some (code, n)
    → contains code operational_codes ≡ true
report-operational code n m [] later ih g = ih g
report-operational code n m (x ∷ es) later ih g =
    let e : reported_code x ≡ code = ground (arith, g) in rw (← e) (reported_code-operational x)

first_error-operational :
    (lines : List ParsedLine) (code : String) (n : ℕ)
    → first_error lines ≡ some (code, n)
    → contains code operational_codes ≡ true
unfolding first_error
first_error-operational [] code n h = cc
first_error-operational (line ∷ lines) code n h =
    report-operational code n line.line_number line.errors (first_error lines)
      (first_error-operational lines code n) h

-- What the tests behind the parse ask of the lines.
pub record IsSound (lines : List ParsedLine) : Type 0 where
  pub some_line : is_empty lines ≡ false
  pub clean : All IsClean lines
  pub consistent : has_inconsistent_identity lines ≡ false

judge_lines-accepted :
    (raw raw' : String) (lines lines' : List ParsedLine)
    → (judge_lines raw lines ≡ accepted raw' lines')
    → (raw ≡ raw') × (lines ≡ lines') × IsSound lines
unfolding judge_lines
judge_lines-accepted raw raw' lines lines' h = go (first_error lines) refl
  where
    go :
        (o : Option (String × ℕ))
        → first_error lines ≡ o
        → (raw ≡ raw') × (lines ≡ lines') × IsSound lines
    go (some e) p = absurd (ground (arith, rw p at h))
    go none p = (
      ground (arith, rw p at h),
      ground (arith, rw p at h),
      record {
        some_line = ground (arith, rw p at h);
        clean = (first_error-none lines).0 p;
        consistent = ground (arith, rw p at h);
      },
    )

accepted-judge_lines :
    (raw : String) (lines : List ParsedLine)
    → IsSound lines
    → judge_lines raw lines ≡ accepted raw lines
unfolding judge_lines
accepted-judge_lines raw lines h =
    rw (h.some_line, (first_error-none lines).1 h.clean, h.consistent)

module _ ⦃env : Env⦄ where
  -- What an upload must be to be accepted with this text and these lines.
  pub record IsAcceptable (dump_bytes : List ℕ) (raw_text : String) (lines : List ParsedLine)
      : Type 0 where
    pub size : length dump_bytes ≤ env.max_dump_bytes
    pub decoded : env.decode_utf8 dump_bytes ≡ some raw_text
    pub parsed : parse_jsonl raw_text ≡ some lines
    pub sound : IsSound lines

  judge_parsed-accepted :
      (raw raw' : String) (o : Option (List ParsedLine)) (lines : List ParsedLine)
      → judge_parsed raw o ≡ accepted raw' lines
      → (raw ≡ raw') × (o ≡ some lines) × IsSound lines
  unfolding judge_parsed
  judge_parsed-accepted raw raw' none lines h = absurd (ground arith)
  judge_parsed-accepted raw raw' (some ls) lines h =
      let (p, q, r) = judge_lines-accepted raw raw' ls lines h in (p, ap some q, rw q at r)

  judge_text-accepted :
      (o : Option String) (raw : String) (lines : List ParsedLine)
      → judge_text o ≡ accepted raw lines
      → (o ≡ some raw) × (parse_jsonl raw ≡ some lines) × IsSound lines
  unfolding judge_text
  judge_text-accepted none raw lines h = absurd (ground arith)
  judge_text-accepted (some r) raw lines h =
      let (p, q, s) = judge_parsed-accepted r raw (parse_jsonl r) lines h in
      (ap some p, rw p at q, s)

  -- An upload is accepted with a text and lines exactly if its size is within the limit, the text
  -- is its UTF-8 decoding, the lines are the text's parse, there is a line, no line has an error,
  -- and the lines name one engine and one account at most.
  pub validate_upload-accepted :
      (dump_bytes : List ℕ) (raw_text : String) (lines : List ParsedLine)
      → (validate_upload dump_bytes ≡ accepted raw_text lines)
        ↔ IsAcceptable dump_bytes raw_text lines
  unfolding validate_upload
  validate_upload-accepted dump_bytes raw_text lines = (forward, backward)
    where
      forward :
          validate_upload dump_bytes ≡ accepted raw_text lines
          → IsAcceptable dump_bytes raw_text lines
      forward h =
          let fits : length dump_bytes ≤ env.max_dump_bytes = ground arith in
          let judged : judge_text (env.decode_utf8 dump_bytes) ≡ accepted raw_text lines =
            ground arith in
          let (p, q, s) = judge_text-accepted (env.decode_utf8 dump_bytes) raw_text lines judged in
          record { size = fits; decoded = p; parsed = q; sound = s }

      judged_text :
          IsAcceptable dump_bytes raw_text lines
          → judge_text (env.decode_utf8 dump_bytes) ≡ accepted raw_text lines
      judged_text a = rw (a.decoded, a.parsed) (accepted-judge_lines raw_text lines a.sound)

      backward :
          IsAcceptable dump_bytes raw_text lines
          → validate_upload dump_bytes ≡ accepted raw_text lines
      backward a = ground (arith, a.size, judged_text a)

  abbrev IsOperational : Verdict → Type 0
  IsOperational (accepted raw_text lines) = Unit
  IsOperational (rejected code line_number) = contains code operational_codes ≡ true

  IsOperational-if :
      (b : Bool) (v w : Verdict)
      → IsOperational v
      → IsOperational w
      → IsOperational (if b then v else w)
  IsOperational-if true v w p q = p
  IsOperational-if false v w p q = q

  judge_identity-IsOperational :
      (raw : String) (lines : List ParsedLine) (o : Option (String × ℕ))
      → ((code : String) (n : ℕ) → o ≡ some (code, n) → contains code operational_codes ≡ true)
      → IsOperational (judge_identity raw lines o)
  judge_identity-IsOperational raw lines none p =
      IsOperational-if (has_inconsistent_identity lines) _ _ refl tt
  judge_identity-IsOperational raw lines (some (code, n)) p = p code n refl

  judge_parsed-IsOperational :
      (raw : String) (o : Option (List ParsedLine)) → IsOperational (judge_parsed raw o)
  unfolding judge_parsed
  judge_parsed-IsOperational raw none = refl
  judge_parsed-IsOperational raw (some lines) =
      IsOperational-if (is_empty lines) _ _ refl
        (judge_identity-IsOperational raw lines (first_error lines) (first_error-operational lines))

  judge_text-IsOperational : (o : Option String) → IsOperational (judge_text o)
  unfolding judge_text
  judge_text-IsOperational none = refl
  judge_text-IsOperational (some raw) = judge_parsed-IsOperational raw (parse_jsonl raw)

  validate_upload-IsOperational : (dump_bytes : List ℕ) → IsOperational (validate_upload dump_bytes)
  unfolding validate_upload
  validate_upload-IsOperational dump_bytes =
      IsOperational-if (ltb env.max_dump_bytes (length dump_bytes)) _ _ refl
        (judge_text-IsOperational (env.decode_utf8 dump_bytes))

  -- Whatever the bytes, the code of a refusal is one of ten fixed codes.
  pub validate_upload-operational :
      (dump_bytes : List ℕ) (code : String) (line_number : Option ℕ)
      → validate_upload dump_bytes ≡ rejected code line_number
      → contains code operational_codes ≡ true
  validate_upload-operational dump_bytes code line_number h =
      subst IsOperational h (validate_upload-IsOperational dump_bytes)

  abbrev pub line_notes : ParsedLine → Notes
  line_notes line = record { normalized = line.normalized; errors = line.errors }

  line_of-IsWithinLimits :
      (n : ℕ) (raw : String) (o : Option Value) → IsWithinLimits (line_notes (line_of n raw o))
  unfolding line_of
  line_of-IsWithinLimits n raw (some (obj event)) = record {
    at = (normalize_event-IsWithinLimits event).at;
  }
  line_of-IsWithinLimits n raw none = record { at = λ j v e. unfold Dict.get in cc e }
  line_of-IsWithinLimits n raw (some null) = record { at = λ j v e. unfold Dict.get in cc e }
  line_of-IsWithinLimits n raw (some _) = record { at = λ j v e. unfold Dict.get in cc e }

  records-IsWithinLimits :
      (n : ℕ) (lines : List String) → All (λ l. IsWithinLimits (line_notes l)) (records n lines)
  unfolding records parse_line
  records-IsWithinLimits n [] = tt
  records-IsWithinLimits n (line ∷ lines) = elim (Bool-cases (nonempty (env.strip line))) [
    | inl full ↦
        rw full (line_of-IsWithinLimits n (env.strip line) _, records-IsWithinLimits (suc n) lines)
    | inr blank ↦ rw blank (records-IsWithinLimits (suc n) lines)
  ]

  -- The lines of an accepted upload are its records, and each holds a JSON object.
  pub accepted_records :
      (dump_bytes : List ℕ) (raw_text : String) (lines : List ParsedLine)
      → validate_upload dump_bytes ≡ accepted raw_text lines
      → records 1 (iter_jsonl_record_lines raw_text) ≡ lines
  accepted_records dump_bytes raw_text lines h =
      let a = (validate_upload-accepted dump_bytes raw_text lines).0 h in
      let spec = sym (parse_jsonl-records raw_text) ∙ a.parsed in ground (arith, spec)

  -- The lines of an accepted upload are at most as many as the limit, and every normalized entry
  -- of each is a column of AuditEvent, with a value of the column's type within its limits, the
  -- group reference within 512 characters. This does not bound account_ref, candidate_count and
  -- eligible_count, the content of a JSON column or which characters a text has.
  pub validate_upload-IsWithinLimits :
      (dump_bytes : List ℕ) (raw_text : String) (lines : List ParsedLine)
      → validate_upload dump_bytes ≡ accepted raw_text lines
      → (length lines ≤ env.max_dump_records) × All (λ l. IsWithinLimits (line_notes l)) lines
  validate_upload-IsWithinLimits dump_bytes raw_text lines h =
      let a = (validate_upload-accepted dump_bytes raw_text lines).0 h in
      let ls = iter_jsonl_record_lines raw_text in
      let spec = sym (parse_jsonl-records raw_text) ∙ a.parsed in
      let same = accepted_records dump_bytes raw_text lines h in
      (
        ground (arith, spec),
        subst (All (λ l. IsWithinLimits (line_notes l))) same (records-IsWithinLimits 1 ls),
      )
