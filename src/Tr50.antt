-- ===== src/Tr50.antt =====
-- The TR50 layer on top of the MQTT client.
pub mod Pending
pub mod Mailbox
pub mod Api
pub mod Dispatch
pub mod Stats
pub mod Config
pub mod Client
pub mod Sample
mod Tests
