-- ===== src/Policy.antt =====
-- clerksan/ingest/policy.py: the disposition of an inspected upload.
pub mod Reasons
pub mod Decide
pub mod Safety
