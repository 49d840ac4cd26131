-- ===== src/Outbox.antt =====
-- The transactional outbox.
pub mod Relay
pub mod Selection
pub mod Published
