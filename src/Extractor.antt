-- ===== src/Extractor.antt =====
-- The content extractor (workers/content_extractor.py).
pub mod Payload
pub mod Repository
pub mod Sanitize
pub mod Extract
pub mod Worker
pub mod Loop
