-- ===== src/Requests.antt =====
-- The request guards of clerksan/api/request_boundaries.py, on bytes.
pub mod Json
pub mod Body
pub mod Multipart
