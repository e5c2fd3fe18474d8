-- ===== src/Sessions.antt =====
-- internal/session/manager.go: the session manager.
pub mod World
pub mod Runtimes
pub mod Targets
pub mod Sending
pub mod Events
pub mod Deleted
pub mod Kept
pub mod Login
pub mod Restart
pub mod Channel
pub mod Live
pub mod Tests
