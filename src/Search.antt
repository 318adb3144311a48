-- ===== src/Search.antt =====
-- Local semantic retrieval (clerksan/search).
pub mod Text
pub mod Tokens
pub mod Group
pub mod Split
pub mod Chunking
