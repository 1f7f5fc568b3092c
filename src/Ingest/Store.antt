-- ===== src/Ingest/Store.antt =====
-- The rows that ingestion reads and writes: AuditGroup, AuditFile, AuditEvent and UploadRejection of
-- forensics/models.py, with the link of files and groups as a field of the file. Times are in
-- milliseconds; those of groups and events are left out.
use goggles.Json.{Fields, Value}
use goggles.Base.Dict.{Dict}
use goggles.Base.{ℕ, String, Bool, Option, List, string_eq}

pub record GroupRow : Type 0 where
  pub id : ℕ
  pub name : String
  pub slug : String
  pub group_ref : String
  pub divergent_message_count : ℕ

pub record FileMetadata : Type 0 where
  pub total_line_count : ℕ
  pub valid_event_count : ℕ
  pub invalid_event_count : ℕ
  pub first_line_number : Option ℕ
  pub last_line_number : Option ℕ
  pub first_seq : Option ℕ
  pub last_seq : Option ℕ
  pub first_wall_time_ms : Option ℕ
  pub last_wall_time_ms : Option ℕ
  pub account_refs : List String
  pub engine_ids : List String
  pub group_refs : List String
  pub schema_versions : List String
  pub audit_data_modes : List String

pub record FileRow : Type 0 where
  pub id : ℕ
  pub upload_token : Option ℕ
  pub uploaded_by : Option ℕ
  pub content_type : String
  pub file_sha256 : String
  pub byte_size : ℕ
  pub raw_text : String
  pub is_valid : Bool
  pub validation_error : String
  pub source : Dict String String
  pub metadata : FileMetadata
  pub duplicate_event_count : ℕ
  pub created_at : ℕ
  pub groups : List ℕ

-- `values` holds the columns that the normalizer fills.
pub record EventRow : Type 0 where
  pub id : ℕ
  pub group_id : Option ℕ
  pub audit_file_id : ℕ
  pub line_number : ℕ
  pub line_hash : String
  pub raw_line : String
  pub raw_event : Option Fields
  pub parse_is_valid : Bool
  pub validation_error : String
  pub values : Dict String Value

pub record RejectionRow : Type 0 where
  pub upload_token : Option ℕ
  pub received_bytes : ℕ
  pub reason : String
  pub status_code : ℕ
  pub created_at : ℕ
  pub line_number : Option ℕ

-- The tables, and the ids that their sequences give next.
pub record Store : Type 0 where
  pub groups : List GroupRow
  pub files : List FileRow
  pub events : List EventRow
  pub rejections : List RejectionRow
  pub next_group : ℕ
  pub next_file : ℕ
  pub next_event : ℕ
