-- ===== src/Whatsapp.antt =====
-- internal/whatsapp: phone numbers, chat targets and message bodies.
pub mod Jid
pub mod Message
