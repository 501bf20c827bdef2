-- ===== src/Domain.antt =====
-- The event contracts of domain/events.
pub mod Topics
pub mod Events
