-- ===== src/Http.antt =====
-- internal/httpapi and internal/auth: the HTTP interface.
pub mod Types
pub mod Responses
pub mod Handlers
pub mod Legacy
pub mod Routes
pub mod Guards
pub mod Sends
pub mod Once
pub mod Refusals
pub mod Tests
