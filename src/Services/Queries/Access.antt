-- ===== src/Services/Queries/Access.antt =====
-- Who may read a transaction (`get_transaction_for_customer` of
-- backend/app/services/transaction_service.py).
use bank_transaction_system.Base.{◌≡◌, some, [], ◌∷◌, ◌==◌, if◌then◌else◌, Bool-cases, inl, inr}
use bank_transaction_system.Base.Rows.{select, find}
use bank_transaction_system.Models.{User, Account, Transaction}
use bank_transaction_system.Orm.{Result, ok, err, Session, Orm}
use bank_transaction_system.Crud.Statements.{begun}
use bank_transaction_system.Crud.Accounts
use bank_transaction_system.Crud.Transactions as Rows
use bank_transaction_system.Services.Failures.{access_denied}
use bank_transaction_system.Services.Queries.{get_transaction_for_customer}

-- What a customer is answered who asks for a transaction whose account is the given one.
abbrev pub answer : User → Transaction → Account → Result Transaction
answer user t account = if account.user_id == user.id then ok t else err access_denied

module _ ⦃orm : Orm⦄ (user : User) (s : Session) where
  -- Of a transaction that is there, alone with its identifier and with its account, the owner of
  -- the account is given the row, and any other customer is answered 403; nothing is written.
  pub get_transaction-answer :
      (t : Transaction) (account : Account)
      → select (Rows.has_id t.id) s.db.transactions ≡ t ∷ []
      → find (Accounts.has_id t.origin_account) s.db.accounts ≡ some account
      → get_transaction_for_customer t.id user s ≡ (answer user t account, begun s)
  unfolding get_transaction_for_customer
  get_transaction-answer t account only found = elim (Bool-cases (account.user_id == user.id)) [
    | inl own ↦ simp (Rows.get_lem, only, found, own)
    | inr other ↦ simp (Rows.get_lem, only, found, other)
  ]
