-- ===== src/Gitrepo.antt =====
-- internal/gitrepo: the backend's repository, replaced as a whole and recovered after a crash.
pub mod Revision
pub mod Failure
pub mod Disk
pub mod World
pub mod Swap
pub mod Recovery
pub mod Crash
pub mod Calm
pub mod Rollback
pub mod Tests
