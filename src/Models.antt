-- ===== src/Models.antt =====
-- The tables of backend/app/models: a record for each row type (in the child modules), and the
-- database, a list of rows for each table.
mod Users
mod Accounts
mod Cards
mod Transactions
mod Audit
mod History
mod Messages
use bank_transaction_system.Base.{ℕ, List, []}
pub use Users.*
pub use Accounts.*
pub use Cards.{CardType, Card}
pub use Transactions.{
  TransactionType, TransactionMethod, TransactionStatus, Transaction, type_eq, method_eq, status_eq,
}
pub use Audit.{AuditLogAction, SessionEvent, UserSession, AuditLog, SessionHistory}
pub use History.*
pub use Messages.*

pub record Db : Type 0 where
  pub users : List User
  pub accounts : List Account
  pub cards : List Card
  pub transactions : List Transaction
  pub sessions : List UserSession
  pub audit_logs : List AuditLog
  pub session_history : List SessionHistory
  pub transaction_history : List TransactionHistory

abbrev pub empty_db : Db
empty_db = record {
  users = [];
  accounts = [];
  cards = [];
  transactions = [];
  sessions = [];
  audit_logs = [];
  session_history = [];
  transaction_history = [];
}

-- `__tablename__`; names the draws of `uuid.uuid4()` in an `Env`
pub data Table : Type 0 where
  users accounts cards transactions sessions audit_logs session_history : Table
