-- ===== src/Ingest.antt =====
-- forensics/ingest.py: from the lines of an accepted upload to the rows that are stored.
pub mod Groups
pub mod Duplicates
pub mod Store
pub mod Metadata
pub mod Values
pub mod Session
pub mod Batch
pub mod Tables
pub mod Transaction
