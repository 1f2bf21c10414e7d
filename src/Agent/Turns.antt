-- ===== src/Agent/Turns.antt =====
-- internal/adapters/sqlite/turn.go: the durable turn of one invocation. Each operation is one
-- transaction; the rows it reads and writes are the value that it takes and gives back.
pub mod Row
pub mod Claim
pub mod Commit
pub mod Ledger
pub mod Handover
