-- ===== src/Upload.antt =====
-- The acceptance of an upload (forensics/ingest.py): its bytes become parsed lines or a rejection.
pub mod Lines
pub mod Parse
pub mod Identity
pub mod Validate
