-- ===== src/Ingest/Transaction/Sound.antt =====
-- The store keeps one file for each text's hash, and one row for each line of a recorder.
use goggles.Upload.Lines.{iter_jsonl_record_lines}
use mathlib.Core.Path.{subst}
use goggles.Base.Text.{nonempty}
use goggles.Upload.Validate.Accepted.{IsClean, accepted_records, validate_upload-accepted}
use goggles.Json.{Value, obj, null}
use goggles.Ingest.Transaction.Archive.{archive}
use goggles.Upload.Validate.{validate_upload, accepted}
use goggles.Ingest.Groups.{GroupKey}
use goggles.Upload.Parse.Records.{records}
use goggles.Base.Dict.Entries.{IsDict}
use goggles.Ingest.Transaction.Stored.{AreBelow}
use goggles.Upload.Parse.{ParsedLine, line_of, parse_line}
use goggles.Ingest.Values.{event_values}
use goggles.Env.{Env}
use goggles.Ingest.Tables.{event_rows, file_is_valid}
use goggles.Ingest.Transaction.Apart.{Owned, LineKey, NoRepeat, HasEvent, row_key}
use goggles.Ingest.Store.{EventRow, FileRow, Store, GroupRow}
use goggles.Base.Dict.{Dict}
use goggles.Base.{
  ℕ, suc, String, ◌≡◌, refl, sym, ap, ◌∙◌, inl, inr, true, false, ◌&&◌, ◌||◌, Option, none, some,
  List, [], ◌∷◌, ◌++◌, map, arith, Bool-cases, ◌==◌, All, All-map, string_eq, pair_eq, nat_eq,
}
use goggles.Base.Dict

pub record IsWellFormed (s : Store) : Type 0 where
  -- The ids of files are behind the sequence, and no two files have one hash.
  pub below : AreBelow s.next_file s.files
  pub hashes : IsDict (archive s.files)
  -- Each event is of a valid file, and no two events share hash and engine.
  pub owned : All (Owned s.files) s.events
  pub apart : NoRepeat (map row_key s.events)

pub append-AreBelow :
    (n : ℕ) (files : List FileRow) (file : FileRow)
    → AreBelow n files
    → file.id ≡ n
    → AreBelow (suc n) (files ++ file ∷ [])
append-AreBelow n [] file h e = (omega arith, tt)
append-AreBelow n (x ∷ files) file h e = (omega arith, append-AreBelow n files file h.1 e)

pub append-IsDict :
    (k v : String) (d : Dict String String)
    → Dict.has k d ≡ false
    → IsDict d
    → IsDict (d ++ (k, v) ∷ [])
unfolding Dict.get
append-IsDict k v [] h i = (refl, tt)
append-IsDict k v ((j, w) ∷ d) h i = (
  ground (arith, has_behind j d, i.0, string_eq.same_iff k j, string_eq.same_iff j k),
  append-IsDict k v d (ground arith) i.1,
)
  where
    has_behind :
        (j : String) (d : Dict String String)
        → Dict.has j (d ++ (k, v) ∷ []) ≡ (Dict.has j d || k == j)
    has_behind j [] = ground arith
    has_behind j ((i, u) ∷ d) = ground (arith, has_behind j d)

file_is_valid-append :
    (id : ℕ) (files : List FileRow) (file : FileRow)
    → file_is_valid id (files ++ file ∷ [])
      ≡ (file_is_valid id files || (file.id == id && file.is_valid))
file_is_valid-append id [] file = ground arith
file_is_valid-append id (x ∷ files) file = ground (arith, file_is_valid-append id files file)

pub Owned-append :
    (files : List FileRow) (file : FileRow) (events : List EventRow)
    → All (Owned files) events
    → All (Owned (files ++ file ∷ [])) events
unfolding Owned
Owned-append files file events h =
    All-map _ _ events (λ event e. file_is_valid-append event.audit_file_id files file ∙ rw e refl)
      h

pub own_rows :
    (n id : ℕ) (fallback : String) (groups_by_key : Dict GroupKey GroupRow)
    (lines : List ParsedLine) (files : List FileRow) (file : FileRow)
    → file.id ≡ n
    → file.is_valid ≡ true
    → All (Owned (files ++ file ∷ [])) (event_rows id n fallback groups_by_key lines)
unfolding event_rows Owned event_values
own_rows n id fallback groups_by_key [] files file e v = tt
own_rows n id fallback groups_by_key (parsed ∷ lines) files file e v = (
  file_is_valid-append n files file ∙ ground (arith, e, v),
  own_rows n (suc id) fallback groups_by_key lines files file e v,
)

pub map-append :
    (f : EventRow → LineKey) (xs ys : List EventRow) → map f (xs ++ ys) ≡ map f xs ++ map f ys
map-append f [] ys = refl
map-append f (x ∷ xs) ys = ap (λ r. f x ∷ r) (map-append f xs ys)

module _ ⦃env : Env⦄ where
  line_of-HasEvent :
      (n : ℕ) (raw : String) (o : Option Value)
      → IsClean (line_of n raw o)
      → HasEvent (line_of n raw o)
  unfolding line_of
  line_of-HasEvent n raw (some (obj event)) h = refl
  line_of-HasEvent n raw none h = cc
  line_of-HasEvent n raw (some null) h = cc
  line_of-HasEvent n raw (some _) h = cc

  records-HasEvent :
      (n : ℕ) (lines : List String) → All IsClean (records n lines) → All HasEvent (records n lines)
  unfolding records parse_line
  records-HasEvent n [] h = tt
  records-HasEvent n (line ∷ lines) h = elim (Bool-cases (nonempty (env.strip line))) [
    | inl full ↦
        let g = rw full at h in
        rw full (line_of-HasEvent n (env.strip line) _ g.0, records-HasEvent (suc n) lines g.1)
    | inr blank ↦ rw blank (records-HasEvent (suc n) lines (rw blank at h))
  ]

  pub accepted-HasEvent :
      (dump_bytes : List ℕ) (raw_text : String) (lines : List ParsedLine)
      → validate_upload dump_bytes ≡ accepted raw_text lines
      → All HasEvent lines
  accepted-HasEvent dump_bytes raw_text lines h =
      let same = accepted_records dump_bytes raw_text lines h in
      let a = (validate_upload-accepted dump_bytes raw_text lines).0 h in
      subst (All HasEvent) same (
        records-HasEvent 1 (iter_jsonl_record_lines raw_text)
          (subst (All IsClean) (sym same) a.sound.clean))
