-- ===== src/Lib.antt =====
-- Goggles: the audit logs of Marmot engines, from the bytes of an upload to the divergence that
-- the group pages show.
--
-- A device uploads a JSONL dump. `validate_upload` (forensics/ingest.py) decodes it, splits it
-- into records, loads each record under guards, checks it against the v4 schema, and normalizes it
-- into the columns of AuditEvent. One bad line rejects the upload whole. The analysis
-- (forensics/analysis.py) reads the stored rows and says which messages diverge: an engine that
-- was active at the time did not see them.
--
-- Files and the code they model:
--   Base             lists, texts and dicts of the native numbers and texts, as Python uses them
--   Env              what comes from outside: Django's field ranges, the schema validators, the
--                    parser of json.loads before its hooks, the codecs, hashes, text methods and
--                    settings; each theorem holds for every Env
--   Json             Python's JSON values and how the code reads them; Json/Depth is
--                    max_json_nesting_depth, Json/Load is loads_audit_json with its two hooks
--   Normalize        Columns: the columns of forensics/models.py and their limits; Copy: the
--                    copy_* helpers; Kind: normalize_kind, a definition per case; Event:
--                    schema_error_code, normalize_context and normalize_event
--   Upload           Lines: iter_jsonl_record_lines; Parse: parse_jsonl; Identity:
--                    has_inconsistent_identity; Validate: validate_upload
--   Ingest           Store: the rows; Groups: the group of a line, found or created; Duplicates: the
--                    duplicate test of create_events; Metadata and Values: what a file's row and an
--                    event's row hold; Session: statements that may fail; Tables: the
--                    changes of the rows; Batch: audit_event_batch_size; Transaction:
--                    ingest_audit_log_bytes, create_events, refresh_group_rollups and
--                    begin_ingestion (forensics/ingestion_limits.py), with their proofs below it
--   Event, Analysis  the rows, and divergent_counts_for_group_ids beside
--                    message_traces_from_events; Analysis/Parity and Analysis/Activity hold the
--                    proofs about them
--   Timeline         timeline_items of forensics/analysis.py: Summary holds the texts and tones, Item
--                    an event's or a burst's item, Items the loop; Color and Unique its helpers
--   Body             Progress: ProgressInput._read of deploy/ingest_worker.py; Counted: CountingInput
--                    of forensics/request_body.py
--   Retention        the pruning command of forensics/management/commands/prune_audit_data.py and the
--                    lock of forensics/retention.py, on the store of ingestion; Autocommit: its
--                    statements
--   Tokens           forensics/token_crypto.py, over the rows of one token model; Personal: the two
--                    models that share it
--   Streaming        stream_ndjson of forensics/streaming.py
--   Tests            an environment, an upload and a group's rows on which the theorems are applied
--
-- A helper that writes `normalized` or appends to `errors` is a step, a function on the record
-- Notes of the two, and `>>` runs one step and then the next, in the source's order. An exception
-- is `none` (of the parser and its hooks, of parse_jsonl) or `rejected` (of validate_upload).
-- Integers are unbounded, as Python's are; a negative one is `neg`. The limits that the columns
-- set are tests in the code, and are modelled as such. Every loop is structural recursion over the
-- list or the text that the source iterates over, except that of ProgressInput._read: it takes fuel,
-- and one pass more than bytes are left is enough, since each chunk but the last has a byte.
-- The pruning command deletes in at most as many batches as there are ids, which is its fuel.
--
-- A set of Python is a list without repetitions, and a query is the list of its rows in the query's
-- order. Duplicate keys of a JSON object are kept by the parser's tree, and the hook decides.
--
-- Ingestion is a transaction on a store of rows: an action takes the store and returns a result with
-- a new store, or the fault that a statement met. A parameter, Database, says which statement meets
-- which fault, which locks are free, and what the tables are after a rollback, since other clients
-- may have written by then; the theorems hold for every Database. Ids come from sequences. Pruning
-- runs in autocommit: what a statement has done stands, whatever fault a later one meets. While it
-- runs, no other client writes.
--
-- Not modelled: the projections, which ingestion runs as one statement that may fail and pruning
-- rebuilds at its end, the times of
-- groups and events, and the division of an insert into batches; the engines and epochs of the
-- timeline, the investigation reader, and the HTTP views with their templates; the logging of
-- refusals; the JSON grammar and the schema validators, which are libraries'.
pub mod Base
pub mod Json
pub mod Env
pub mod Normalize
pub mod Upload
pub mod Event
pub mod Analysis
pub mod Tests
pub mod Tokens
pub mod Ingest
pub mod Streaming
pub mod Timeline
pub mod Body
pub mod Retention
