-- ===== src/Api.antt =====
-- The endpoints of backend/app/api/api_v1 that hold logic of their own.
pub mod Accounts
pub mod Auth
pub mod Transactions
pub mod AdminBackoffice
pub mod Internal
