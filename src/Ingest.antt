-- ===== src/Ingest.antt =====
-- internal/ingest: the retry backoff of the ClickHouse inserts.
pub mod Backoff
pub mod Backoffs
pub mod Assign
