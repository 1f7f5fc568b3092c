-- ===== src/Body.antt =====
-- The bodies of uploads: deploy/ingest_worker.py and forensics/request_body.py.
pub mod Progress
pub mod Counted
