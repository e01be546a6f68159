-- ===== src/Relay.antt =====
-- internal/relay: the relay that fetches files for the launcher from several sources at once.
pub mod Chunk
