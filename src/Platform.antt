-- ===== src/Platform.antt =====
-- The packages that the services share (platform/pkg).
pub mod Kafka
pub mod Closer
pub mod Http
pub mod App
pub mod Setup
