-- ===== src/Policy.antt =====
-- internal/policy: who may invoke the agent and run commands.
pub mod Chat
pub mod Allowlist
pub mod Permission
pub mod Principal
pub mod FixedGate
pub mod Trigger
