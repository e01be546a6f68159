-- ===== src/Logging.antt =====
-- internal/logging: which log files are kept.
pub mod Retention
