-- ===== src/Inventory.antt =====
-- The inventory service (inventory/internal): parts, their reservation, and compatibility checks.
pub mod Clients
pub mod Errors
pub mod Properties
pub mod Part
pub mod Record
pub mod Repository
pub mod Service
pub mod Compatibility
pub mod Api
mod Tests
