-- ===== src/Fetcher.antt =====
-- The document fetcher (workers/document_fetcher.py).
pub mod Inspect
pub mod Repository
pub mod Worker
