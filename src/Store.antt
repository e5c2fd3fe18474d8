-- ===== src/Store.antt =====
-- internal/store: the tables and the repositories.
pub mod Models
pub mod Db
pub mod Table
pub mod Sessions
pub mod Webhooks
pub mod Messages
pub mod ApiKeys
