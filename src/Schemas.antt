-- ===== src/Schemas.antt =====
-- The payloads of backend/app/schemas, as the validators leave them.
mod Payloads
pub mod Validators
pub mod Accepted
pub mod Responses
pub use Payloads.*
