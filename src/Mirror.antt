-- ===== src/Mirror.antt =====
-- internal/mirror: network sources, the order in which they are tried, and the bounded rotation
-- over them.
pub mod Source
pub mod Catalog
pub mod Rank
pub mod Target
pub mod Report
pub mod Rotation
pub mod Cache
