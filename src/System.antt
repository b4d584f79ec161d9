-- ===== src/System.antt =====
-- The whole program: its endpoints and background tasks as requests.
pub mod Statements
pub mod Sessions
pub mod Users
pub mod Queries
pub mod Endpoints
pub mod Requests
pub mod Untouched
pub mod Money
pub mod Runs
pub mod Invariants
pub mod Funds
pub mod Trail
