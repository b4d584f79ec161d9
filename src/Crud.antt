-- ===== src/Crud.antt =====
-- The data access layer, backend/app/crud: a module for each table's class. A method is an action
-- on the session, built from SQL statements over the lists of rows.
pub mod Statements
pub mod Accounts
pub mod Cards
pub mod Transactions
pub mod Users
pub mod Audit
pub mod Written
pub mod Reads
