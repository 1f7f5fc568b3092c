-- ===== src/Tests.antt =====
-- The theorems at work on concrete inputs.
mod Uploads
mod Ingestion
mod Timelines
mod Bodies
mod Prunings
mod Groups
mod Credentials
mod Rows
mod Exports
