-- ===== src/Services.antt =====
-- The business logic, backend/app/services.
pub mod Failures
pub mod Queue
pub mod Cards
pub mod Transactions
pub mod Queries
pub mod Users
pub mod Auth
pub mod Archive
pub mod Backup
