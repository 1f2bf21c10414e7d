-- ===== src/Config.antt =====
-- internal/config: the configuration file.
pub mod DotEnv
