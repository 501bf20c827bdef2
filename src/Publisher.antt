-- ===== src/Publisher.antt =====
-- The outbox publisher (workers/outbox_publisher.py) and the two database functions that it calls.
pub mod Outbox
pub mod Publish
pub mod Loop
