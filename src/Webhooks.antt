-- ===== src/Webhooks.antt =====
-- internal/webhooks: the webhook service and its delivery worker.
pub mod Service
pub mod Backoff
pub mod Emit
pub mod Frame
pub mod Settle
pub mod Delivery
pub mod Posts
pub mod Rounds
pub mod Counts
pub mod Attempts
pub mod Settled
mod Tests
