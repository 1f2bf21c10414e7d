-- ===== src/Observability.antt =====
-- internal/observability: the log that the application shows.
pub mod LogBuffer
