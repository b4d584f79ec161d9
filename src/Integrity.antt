-- ===== src/Integrity.antt =====
-- The integrity of the database: the keys, references and checks of backend/app/models hold, and
-- the archive has at most one copy of a transaction.
pub mod Registered
pub mod Paid
pub mod Logged
pub mod Archived
use bank_transaction_system.Base.{
  ℕ, ◌≡◌, Bool, true, false, Option, none, some, List, ◌==◌, str_eq, not, ◌&&◌, leb,
}
use bank_transaction_system.Base.Rows.{exists_row, All}
use bank_transaction_system.Base.Int.{pos, leb_ℤ}
use bank_transaction_system.Base.Distinct.{Distinct}
use bank_transaction_system.Models.{
  User, Account, Card, Transaction, UserSession, AuditLog, SessionHistory, TransactionHistory, Db,
}
use bank_transaction_system.Crud.Statements.{numeric_fits}
use bank_transaction_system.Crud.Accounts
use bank_transaction_system.Crud.Users
use bank_transaction_system.Crud.Cards
use bank_transaction_system.Crud.Transactions.{refers}
use bank_transaction_system.Crud.Transactions as Rows
use bank_transaction_system.Crud.Audit.{has_user}

pub record UsersOk (users : List User) : Type 0 where
  pub ids : Distinct (λ u v. v.id == u.id) users
  pub national_ids : Distinct (λ u v. v.national_id == u.national_id) users
  pub emails : Distinct (λ u v. str_eq v.email u.email) users
  pub phones : Distinct (λ u v. v.phone == u.phone) users

-- One account for a user.
pub record AccountsOk (users : List User) (accounts : List Account) : Type 0 where
  pub ids : Distinct (λ a b. b.id == a.id) accounts
  pub owners : Distinct (λ a b. b.user_id == a.user_id) accounts
  pub users_known : All (λ a. exists_row (Users.has_id a.user_id) users ≡ true) accounts
  pub fits : All (λ a. numeric_fits a.balance ≡ true) accounts

-- One card for a number.
pub record CardsOk (accounts : List Account) (cards : List Card) : Type 0 where
  pub ids : Distinct (λ c b. b.id == c.id) cards
  pub numbers : Distinct (λ c b. str_eq b.number_hmac c.number_hmac) cards
  pub accounts_known : All (λ c. exists_row (Accounts.has_id c.account_id) accounts ≡ true) cards
  pub months : All (λ c. (leb 1 c.expiration_month && leb c.expiration_month 12) ≡ true) cards
  pub years : All (λ c. leb 26 c.expiration_year ≡ true) cards

pub record TransactionsOk (accounts : List Account) (cards : List Card) (rows : List Transaction)
    : Type 0 where
  pub ids : Distinct (λ t u. u.id == t.id) rows
  pub cards_known : All (λ t. exists_row (Cards.has_id t.source_card) cards ≡ true) rows
  pub accounts_known : All (λ t. exists_row (Accounts.has_id t.origin_account) accounts ≡ true) rows
  pub originals_known : All (λ t. refers rows t.reversal_of ≡ true) rows
  pub positive : All (λ t. leb_ℤ t.amount (pos 0) ≡ false) rows
  pub fits : All (λ t. numeric_fits t.amount ≡ true) rows

-- One session for a user.
pub record SessionsOk (users : List User) (sessions : List UserSession) : Type 0 where
  pub ids : Distinct (λ s r. r.id == s.id) sessions
  pub owners : Distinct (λ s r. r.user_id == s.user_id) sessions
  pub users_known : All (λ s. exists_row (Users.has_id s.user_id) users ≡ true) sessions

pub record LogsOk (users : List User) (logs : List AuditLog) (events : List SessionHistory)
    : Type 0 where
  pub log_ids : Distinct (λ e f. f.id == e.id) logs
  pub log_users : All (λ e. exists_row (Users.has_id e.user_id) users ≡ true) logs
  pub event_ids : Distinct (λ e f. f.id == e.id) events
  pub event_users : All (λ e. exists_row (Users.has_id e.user_id) users ≡ true) events

-- One copy of a transaction.
pub record ArchiveOk (history : List TransactionHistory) : Type 0 where
  pub ids : Distinct (λ h g. g.id == h.id) history
  pub copies : Distinct (λ h g. g.transaction_id == h.transaction_id) history

pub record WellFormed (d : Db) : Type 0 where
  pub users : UsersOk d.users
  pub accounts : AccountsOk d.users d.accounts
  pub cards : CardsOk d.accounts d.cards
  pub transactions : TransactionsOk d.accounts d.cards d.transactions
  pub sessions : SessionsOk d.users d.sessions
  pub logs : LogsOk d.users d.audit_logs d.session_history
  pub archive : ArchiveOk d.transaction_history
