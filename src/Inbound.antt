-- ===== src/Inbound.antt =====
-- internal/inbound/dispatcher.go: the queue of messages that each chat keeps.
pub mod Queue
