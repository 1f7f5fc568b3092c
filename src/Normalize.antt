-- ===== src/Normalize.antt =====
-- `normalize_event` of forensics/ingest.py: one JSON event becomes the columns of an AuditEvent
-- row, and a list of errors.
pub mod Columns
pub mod Copy
pub mod Kind
pub mod Event
pub mod Storable
