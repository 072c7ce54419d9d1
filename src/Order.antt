-- ===== src/Order.antt =====
-- The order service (order/internal).
pub mod Messages
pub mod Errors
pub mod Model
pub mod Record
pub mod Repository
pub mod Service
pub mod Consumer
pub mod Clients
pub mod Api
pub mod Http
pub mod Tracing
pub mod System
pub mod Tests
