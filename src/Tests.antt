-- ===== src/Tests.antt =====
-- The theorems at concrete inputs.
mod Inbound
mod Observability
mod Action
mod Effect
mod Agent
mod Shared
mod Policy
mod Gate
mod Command
mod Account
mod Fallback
mod Config
