-- ===== src/Reads.antt =====
-- internal/store/read_models.go and read_service.go: what the dashboard reads.
pub mod Models
pub mod Groups
pub mod Queries
pub mod Canonical
pub mod Summary
pub mod Chats
mod Tests
