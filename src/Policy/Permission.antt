-- ===== src/Policy/Permission.antt =====
-- The command permission language of internal/policy/permission.go.
pub mod Token
pub mod Parser
pub mod Grammar
pub mod Ensures
pub mod Reads
pub mod Sound
pub mod Complete
pub mod Scan
pub mod Correct
pub mod Render
