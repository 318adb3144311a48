-- ===== src/Ingest.antt =====
-- Resource bounds of a source's parse (clerksan/ingest/limits.py).
pub mod Limits
pub mod Budget
pub mod Archive
pub mod Bytes
pub mod Zip64
pub mod Directory
