-- ===== src/Agent.antt =====
-- internal/agent: how a chat's agent answers a message. The children model what the model may ask
-- for, the durable turn, and the invocation that ties them together.
pub mod Effects
pub mod Invocation
pub mod Turns
pub mod Dispatch
pub mod History
pub mod Invoke
pub mod Gate
pub mod Registry
