-- ===== src/Tests.antt =====
-- The theorems applied to concrete rows, requests and sources.
mod Queue
mod Enqueue
mod Policy
mod Intake
mod Reserve
mod Ingest
mod Directory
mod Requests
mod Search
mod Bills
mod Record
mod Analysis
