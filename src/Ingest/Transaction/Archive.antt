-- ===== src/Ingest/Transaction/Archive.antt =====
-- Ingestion as an archive of texts by hash: what it promises, whatever the database does.
use goggles.Upload.Validate.Accepted.{validate_upload-accepted}
use goggles.Upload.Validate.{Verdict, rejected, accepted, validate_upload}
use goggles.Ingest.Transaction.Whole.{Stores, store_upload_lem}
use goggles.Ingest.Session.Post.{Post}
use goggles.Ingest.Transaction.Stored.{AreBelow}
use goggles.Upload.Parse.{ParsedLine}
use goggles.Ingest.Session.{Database, Attempt, done, raised, failed, busy, locked, integrity}
use goggles.Env.{Env}
use goggles.Ingest.Transaction.{
  IngestionResult, Dump, created, ingest_audit_log_bytes, record_ingestion_rejection, existing,
  after_conflict, refused, status_code, unless_existing, conclude, ingest_judged,
}
use goggles.Ingest.Tables.{first_file}
use goggles.Ingest.Store.{FileRow, Store}
use goggles.Base.Dict.{Dict}
use goggles.Base.{
  ℕ, String, ◌≡◌, refl, sym, ap, ◌∙◌, ◌⊎◌, inl, inr, Bool, true, false, Option, none, some, List,
  [], ◌∷◌, ◌++◌, map, arith, if◌then◌else◌, length, string_eq,
}
use goggles.Base.Dict

-- The retained texts, by their hashes.
abbrev pub archive : List FileRow → Dict String String
archive files = map (λ (file : FileRow). (file.file_sha256, file.raw_text)) files

-- A new text is put behind the others, a known one is left, and a refusal changes nothing.
abbrev pub Deposits :
    String → Option String → Dict String String → IngestionResult → Dict String String → Type 0
Deposits sha text before (created file) after =
    (text ≡ some file.raw_text)
    × (Dict.get sha before ≡ none)
    × (after ≡ before ++ (sha, file.raw_text) ∷ [])
Deposits sha text before (existing file) after =
    (Dict.get sha before ≡ some file.raw_text) × (after ≡ before)
Deposits sha text before (refused code line_number) after = after ≡ before

pub get-archive :
    (sha : String) (files : List FileRow)
    → Dict.get sha (archive files)
      ≡ elim (first_file sha files) [ none ↦ none | some file ↦ some file.raw_text ]
unfolding Dict.get first_file
get-archive sha [] = refl
get-archive sha (file ∷ files) = ground (arith, get-archive sha files)

pub archive-append :
    (files : List FileRow) (file : FileRow)
    → archive (files ++ file ∷ []) ≡ archive files ++ (file.file_sha256, file.raw_text) ∷ []
archive-append [] file = refl
archive-append (x ∷ files) file =
    ap (λ d. (x.file_sha256, x.raw_text) ∷ d) (archive-append files file)

module _ ⦃env : Env⦄ ⦃db : Database⦄ where
  -- The result, from the tables of before or from those that a rollback finds.
  abbrev pub Outcome : Dump → Store → IngestionResult × Store → Type 0
  Outcome dump base (result, t) =
      Deposits (env.sha256_bytes dump.dump_bytes) (env.decode_utf8 dump.dump_bytes)
        (archive base.files) result (archive t.files)

  refusal-Outcome :
      (dump : Dump) (code reason : String) (line_number n : Option ℕ) (s : Store)
      → Outcome dump s (refused reason n, record_ingestion_rejection dump code line_number s)
  unfolding record_ingestion_rejection
  refusal-Outcome dump code reason line_number n s = go db.can_record
    where
      go :
          (b : Bool)
          → archive
              (if b
                then (record s {
                  rejections =
                      s.rejections
                      ++ (record {
                        upload_token = dump.upload_token;
                        received_bytes = length dump.dump_bytes;
                        reason = code;
                        status_code = status_code code;
                        created_at = db.now;
                        line_number = line_number;
                      })
                        ∷ [];
                })
                else s).files
            ≡ archive s.files
      go true = refl
      go false = refl

  conflict-Outcome :
      (dump : Dump) (o : Option FileRow) (s : Store)
      → first_file (env.sha256_bytes dump.dump_bytes) s.files ≡ o
      → Outcome dump s (after_conflict dump o s)
  conflict-Outcome dump (some file) s e =
      (get-archive (env.sha256_bytes dump.dump_bytes) s.files ∙ rw e refl, refl)
  conflict-Outcome dump none s e = refusal-Outcome dump "ingest_failed" "ingest_failed" none none s

  -- The outcome, from the one tables or the other.
  abbrev pub EitherOutcome : Dump → Store → IngestionResult × Store → Type 0
  EitherOutcome dump s out = Outcome dump s out ⊎ Outcome dump (db.others s) out

  conclude-Outcome :
      (dump : Dump) (raw_text : String) (lines : List ParsedLine) (s : Store) (x : Attempt FileRow)
      → env.decode_utf8 dump.dump_bytes ≡ some raw_text
      → first_file (env.sha256_bytes dump.dump_bytes) s.files ≡ none
      → Post (λ file t. Stores dump raw_text lines s file t.store) x
      → EitherOutcome dump s (conclude dump x s)
  conclude-Outcome dump raw_text lines s (done file t) decoded absent h = inl (
    decoded ∙ ap some (sym h.renews.raw_text),
    get-archive (env.sha256_bytes dump.dump_bytes) s.files ∙ rw absent refl,
    ap archive h.tables.files
        ∙ archive-append s.files file
        ∙ ap (λ sha. archive s.files ++ (sha, file.raw_text) ∷ []) h.renews.file_sha256,
  )
  conclude-Outcome dump raw_text lines s (raised busy) decoded absent h = inr refl
  conclude-Outcome dump raw_text lines s (raised locked) decoded absent h = inr refl
  conclude-Outcome dump raw_text lines s (raised integrity) decoded absent h =
      inr (conflict-Outcome dump _ (db.others s) refl)
  conclude-Outcome dump raw_text lines s (raised (failed name)) decoded absent h =
      inr (refusal-Outcome dump "ingest_failed" "ingest_failed" none none (db.others s))

  -- Ingestion refines the archive: from the tables of before, or from those that other clients have
  -- left by the time of a rollback, a created file adds the dump's text under the dump's hash, which
  -- was free, a file reported as existing has its text there already, and a refusal leaves all texts
  -- as they are. The ids of the old files must be behind the sequence.
  pub ingest_audit_log_bytes-Deposits :
      (dump : Dump) (s : Store)
      → AreBelow s.next_file s.files
      → EitherOutcome dump s (ingest_audit_log_bytes dump s)
  unfolding ingest_audit_log_bytes
  ingest_audit_log_bytes-Deposits dump s below = judged (validate_upload dump.dump_bytes) refl
    where
      looked_up :
          (raw_text : String) (lines : List ParsedLine) (o : Option FileRow)
          → env.decode_utf8 dump.dump_bytes ≡ some raw_text
          → first_file (env.sha256_bytes dump.dump_bytes) s.files ≡ o
          → EitherOutcome dump s (unless_existing dump raw_text lines o s)
      looked_up raw_text lines (some file) d e =
          inl (get-archive (env.sha256_bytes dump.dump_bytes) s.files ∙ rw e refl, refl)
      looked_up raw_text lines none d e =
          conclude-Outcome dump raw_text lines s _ d e
            (store_upload_lem dump raw_text lines s 0 below)

      judged :
          (v : Verdict)
          → validate_upload dump.dump_bytes ≡ v
          → EitherOutcome dump s (ingest_judged dump v s)
      judged (rejected code line_number) v =
          inl (refusal-Outcome dump code code line_number line_number s)
      judged (accepted raw_text lines) v =
          looked_up raw_text lines _
            ((validate_upload-accepted dump.dump_bytes raw_text lines).0 v).decoded refl
