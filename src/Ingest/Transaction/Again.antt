-- ===== src/Ingest/Transaction/Again.antt =====
-- The same bytes, uploaded again.
use mathlib.Core.Path.{subst}
use goggles.Ingest.Transaction.Whole.{Stores, store_upload_lem}
use goggles.Ingest.Session.Post.{Post}
use goggles.Ingest.Transaction.Stored.{AreBelow}
use goggles.Upload.Validate.{validate_upload, accepted, Verdict, rejected}
use goggles.Upload.Parse.{ParsedLine}
use goggles.Ingest.Session.{Database, Attempt, done, raised, failed, busy, locked, integrity}
use goggles.Ingest.Store.{FileRow, Store}
use goggles.Env.{Env}
use goggles.Ingest.Transaction.{
  Dump, ingest_audit_log_bytes, created, existing, unless_existing, conclude, ingest_judged,
  after_conflict,
}
use goggles.Ingest.Tables.{first_file}
use goggles.Base.{
  String, ◌≡◌, refl, ap, ◌∙◌, Option, none, some, List, [], ◌∷◌, ◌++◌, arith, string_eq,
}

first_file-append :
    (sha : String) (files : List FileRow) (file : FileRow)
    → first_file sha files ≡ none
    → file.file_sha256 ≡ sha
    → first_file sha (files ++ file ∷ []) ≡ some file
unfolding first_file
first_file-append sha [] file h e = ground (arith, string_eq.same_iff file.file_sha256 sha)
first_file-append sha (row ∷ files) file h e =
    ground (arith, first_file-append sha files file (ground arith) e)

module _ ⦃env : Env⦄ ⦃db : Database⦄ where
  -- A file that is created was new, and is found by its hash.
  concluded :
      (dump : Dump) (raw_text : String) (lines : List ParsedLine) (s t : Store) (file : FileRow)
      (x : Attempt FileRow)
      → first_file (env.sha256_bytes dump.dump_bytes) s.files ≡ none
      → Post (λ file t. Stores dump raw_text lines s file t.store) x
      → conclude dump x s ≡ (created file, t)
      → Stores dump raw_text lines s file t
  concluded dump raw_text lines s t file (done made u) absent h e =
      let p : made ≡ file = ground arith in
      let q : u.store ≡ t = ground arith in
      subst (λ v. Stores dump raw_text lines s file v) q
        (subst (λ f. Stores dump raw_text lines s f u.store) p h)
  concluded dump raw_text lines s t file (raised busy) absent h e = absurd (ground arith)
  concluded dump raw_text lines s t file (raised locked) absent h e = absurd (ground arith)
  concluded dump raw_text lines s t file (raised integrity) absent h e =
      conflict (first_file (env.sha256_bytes dump.dump_bytes) (db.others s).files) e
    where
      conflict :
          (o : Option FileRow)
          → after_conflict dump o (db.others s) ≡ (created file, t)
          → Stores dump raw_text lines s file t
      conflict (some other) e = absurd (ground arith)
      conflict none e = absurd (ground arith)
  concluded dump raw_text lines s t file (raised (failed name)) absent h e = absurd (ground arith)

  -- What an upload has gone through if it creates a file.
  pub record IsCreated (dump : Dump) (s t : Store) (file : FileRow) : Type 0 where
    pub raw_text : String
    pub lines : List ParsedLine
    pub verdict : validate_upload dump.dump_bytes ≡ accepted raw_text lines
    pub absent : first_file (env.sha256_bytes dump.dump_bytes) s.files ≡ none
    pub stores : Stores dump raw_text lines s file t

  pub ingest_audit_log_bytes-IsCreated :
      (dump : Dump) (s t : Store) (file : FileRow)
      → AreBelow s.next_file s.files
      → ingest_audit_log_bytes dump s ≡ (created file, t)
      → IsCreated dump s t file
  unfolding ingest_audit_log_bytes
  ingest_audit_log_bytes-IsCreated dump s t file below h =
      judged (validate_upload dump.dump_bytes) refl h
    where
      looked_up :
          (raw_text : String) (lines : List ParsedLine) (o : Option FileRow)
          → validate_upload dump.dump_bytes ≡ accepted raw_text lines
          → first_file (env.sha256_bytes dump.dump_bytes) s.files ≡ o
          → unless_existing dump raw_text lines o s ≡ (created file, t)
          → IsCreated dump s t file
      looked_up raw_text lines (some other) v e k = absurd (ground arith)
      looked_up raw_text lines none v e k = record {
        raw_text = raw_text;
        lines = lines;
        verdict = v;
        absent = e;
        stores =
            concluded dump raw_text lines s t file _ e
              (store_upload_lem dump raw_text lines s 0 below) k;
      }

      judged :
          (v : Verdict)
          → validate_upload dump.dump_bytes ≡ v
          → ingest_judged dump v s ≡ (created file, t)
          → IsCreated dump s t file
      judged (rejected code line_number) e k = absurd (ground arith)
      judged (accepted raw_text lines) e k = looked_up raw_text lines _ e refl k

  -- Once a file is created, an upload of the same bytes, whoever sends it and under whatever
  -- fallback group, reports that file and changes nothing.
  pub ingest_audit_log_bytes-again :
      (dump other : Dump) (s t : Store) (file : FileRow)
      → AreBelow s.next_file s.files
      → other.dump_bytes ≡ dump.dump_bytes
      → ingest_audit_log_bytes dump s ≡ (created file, t)
      → ingest_audit_log_bytes other t ≡ (existing file, t)
  unfolding ingest_audit_log_bytes
  ingest_audit_log_bytes-again dump other s t file below same h =
      let c = ingest_audit_log_bytes-IsCreated dump s t file below h in
      let sha = env.sha256_bytes dump.dump_bytes in
      let found : first_file sha t.files ≡ some file =
        ap (first_file sha) c.stores.tables.files
        ∙ first_file-append sha s.files file c.absent c.stores.renews.file_sha256 in
      ap (λ bytes. ingest_judged other (validate_upload bytes) t) same
      ∙ ap (λ v. ingest_judged other v t) c.verdict
      ∙ ap
          (λ bytes.
            unless_existing other c.raw_text c.lines (first_file (env.sha256_bytes bytes) t.files)
              t)
          same
      ∙ ap (λ o. unless_existing other c.raw_text c.lines o t) found
