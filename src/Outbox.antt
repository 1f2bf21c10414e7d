-- ===== src/Outbox.antt =====
-- The two durable outboxes, of replies and of effects, and the dispatchers that empty them.
pub mod Row
pub mod Once
pub mod Effect
pub mod Action
