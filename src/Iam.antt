-- ===== src/Iam.antt =====
-- The IAM service (iam/internal): users in PostgreSQL, sessions in Redis, and its gRPC handlers.
pub mod Model
pub mod Users
pub mod Sessions
pub mod Service
pub mod Api
pub mod Access
pub mod Tests
