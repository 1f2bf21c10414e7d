-- ===== src/Command.antt =====
-- internal/command: the slash commands.
pub mod Registry
