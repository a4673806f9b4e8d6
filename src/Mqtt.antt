-- ===== src/Mqtt.antt =====
-- mqtt/: the MQTT client of the library, from the wire format up.
pub mod Header
pub mod Types
pub mod Build
pub mod Process
pub mod Qos
pub mod Net
pub mod Client
pub mod Recv
pub mod Connect
pub mod Async
pub mod Sample
