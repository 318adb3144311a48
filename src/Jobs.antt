-- ===== src/Jobs.antt =====
-- clerksan/ingest/jobs.py: the durable work queue of the worker process.
pub mod Payload
pub mod Row
pub mod Table
pub mod Lease
pub mod Claim
pub mod Fields
pub mod Source
pub mod Enqueue
pub mod Next
pub mod Invariant
pub mod Identity
pub mod Safety
pub mod Exclusive
pub mod Leased
pub mod Retry
pub mod Sweep
pub mod Done
pub mod Scope
