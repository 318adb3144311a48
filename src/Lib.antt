-- ===== src/Lib.antt =====
-- The intake core of clerk-san: the job queue, the intake policy, the life of a source intake, the
-- activation of the universal mode, the resource bounds of a request and a parse, the chunks for
-- search, and the recording, the analysis and the reminders of bills.
--
-- The parts and their interplay. An upload is judged by the policy (`decide_intake`). A source that
-- is kept has one intake row, whose state moves by optimistic transitions. Its processing is a job
-- of the queue: workers claim jobs under a lease, renew it, and finish, retry or bury the job;
-- every claim first sweeps the leases that ran out in the last attempt. Universal workers publish
-- capability leases, on which the activation of the universal mode depends. Parses run under one
-- budget, and archives are validated before any member is opened. Before all this, a request's body
-- is bounded and checked; the text of a document that was read is chunked for search, and reviewed
-- bills are recorded, compared and watched for what falls due.
--
-- Files and sources:
--   Models: the enumerations of clerksan/db/models.py and of clerksan/config.py.
--   Jobs: clerksan/ingest/jobs.py. Row and Payload hold a row of the jobs table; Table is the
--     table as a list of rows with the queue's order; Fields, Source and Enqueue are `enqueue`
--     with its checks; Lease is `renew_lease`, `mark_done` and `retry_or_bury`; Claim holds the
--     claims of both database dialects and the sweep; Next is `claim_next`, with the worker's
--     recovery of crashed rebuild jobs (clerksan/ingest/worker.py). The other modules are proofs.
--   Policy: clerksan/ingest/policy.py. Reasons holds the public reason codes, Decide the decision.
--   Intake: Row, Transition and Reserve are the intake rows, `SourceIntakeRepo.transition` and
--     `SourceIntakeRepo.reserve_upload_idempotency` of clerksan/db/repositories.py; Capability is
--     `WorkerCapabilityLeaseRepo.refresh` of the same file and `evaluate_universal_activation` of
--     clerksan/ingest/activation.py.
--   Ingest: clerksan/ingest/limits.py. Limits holds the single checks, Budget the parse budget,
--     Archive the validation of archive members, Zip64 the sizes of an entry, Directory the central
--     directory on bytes.
--   Requests: clerksan/api/request_boundaries.py. Body receives and replays a body, Json holds the
--     scanner of JSON bodies and a grammar of JSON, Multipart the check of multipart bodies.
--   Search: clerksan/search/chunking.py. Text holds texts as code points, Tokens `estimate_tokens`,
--     Split the splitting of large paragraphs, Chunking the sections, blocks and chunks.
--   Bills: Reminders is `bucket_reminders` of clerksan/bills/reminders.py, Record is
--     `record_verified_bill` of clerksan/bills/service.py, with dates as their ordinals; Analysis and
--     Anomalies are `compare_points` and `flag_anomalies_for_points` of clerksan/bills/analysis.py.
--   Prelude: shared helpers. Tests: the theorems at concrete values.
--
-- State is passed explicitly: a table is the list of its rows, a transaction a function from the
-- rows to the rows or an error, and an error leaves the rows as they were, since the session rolls
-- back. Concurrent workers are sequences of such transactions (Jobs.Safety.Steps.Step,
-- Jobs.Exclusive.Quiet.Quiet); rows that other transactions have locked are a predicate of
-- PostgreSQL's claim. Times are microseconds and identifiers numbers in the database's order. The
-- searches of Ingest.Zip64 and Requests.Multipart take fuel, one more than the length of the bytes,
-- which is proved to be enough; all other recursion is structural.
--
-- Parameters stand for code outside the repository: reading and writing UUIDs, SHA-256 of the
-- required components, the reading of a ZIP file's end record, the parsing of MIME headers, Python's
-- path classes, dates and decimals, the database's order of texts, the order of a source's jobs by
-- their last update, and the floating-point comparison of an expansion ratio; and one for the
-- construction of a capability registry.
--
-- Not modelled: the handler registry of the queue, `updated_at` columns, the audit actor of a
-- transition, the queries in front of the bills' analysis, and the parts of the program beside these:
-- the search index, review, extraction, adapters, export, the web interface and the tools.
pub mod Prelude
pub mod Models
pub mod Intake
pub mod Ingest
pub mod Jobs
pub mod Policy
pub mod Bills
pub mod Requests
pub mod Search
pub mod Tests
