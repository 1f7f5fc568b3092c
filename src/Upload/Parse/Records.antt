-- ===== src/Upload/Parse/Records.antt =====
-- `parse_jsonl` without its loop: the nonblank lines, each parsed under its own number.
use goggles.Base.{
  ℕ, suc, ◌+◌, ◌≤◌, String, ◌≡◌, ap, ◌∙◌, inl, inr, ◌||◌, none, some, List, [], ◌∷◌, arith, ltb,
  if◌then◌else◌, Bool-cases, length, any, nat_eq,
}
use goggles.Base.Text.{nonempty}
use goggles.Env.{Env}
use goggles.Upload.Lines.{iter_jsonl_record_lines}
use goggles.Upload.Parse.{ParsedLine, parse_line, line_too_long, parse_from, parse_jsonl}

module _ ⦃env : Env⦄ where
  unfoldable pub records : ℕ → List String → List ParsedLine
  records n [] = []
  records n (line ∷ lines) =
      let rest = records (suc n) lines in
      if nonempty (env.strip line) then parse_line n (env.strip line) ∷ rest else rest

  parse_from-records :
      (n count : ℕ) (lines : List String)
      → count ≤ env.max_dump_records
      → parse_from n count lines ≡ (
          if any line_too_long lines || ltb env.max_dump_records (count + length (records n lines))
          then none
          else some (records n lines))
  unfolding parse_from records
  parse_from-records n count [] h = ground arith
  parse_from-records n count (line ∷ lines) h = elim (Bool-cases (nonempty (env.strip line))) [
    | inl full ↦ rw full (ground (arith, parse_from-records (suc n) (suc count) lines))
    | inr blank ↦ rw blank (ground (arith, parse_from-records (suc n) count lines h))
  ]

  -- The parse fails exactly if a line is too long or more lines are not blank than the limit
  -- allows; otherwise it gives each line that is not blank, parsed under its line number.
  pub parse_jsonl-records :
      (raw_text : String)
      → parse_jsonl raw_text ≡ (
          if any line_too_long (iter_jsonl_record_lines raw_text)
            || ltb env.max_dump_records (length (records 1 (iter_jsonl_record_lines raw_text)))
          then none
          else some (records 1 (iter_jsonl_record_lines raw_text)))
  unfolding parse_jsonl
  parse_jsonl-records raw_text =
      let lines = iter_jsonl_record_lines raw_text in
      parse_from-records 1 0 lines (omega arith)
      ∙ ap
          (λ k.
            if any line_too_long lines || ltb env.max_dump_records k
            then none
            else some (records 1 lines))
          (omega arith)
