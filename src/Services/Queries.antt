-- ===== src/Services/Queries.antt =====
-- The read-only functions of backend/app/services/transaction_service.py
pub mod Access
pub mod Pages
use bank_transaction_system.Base.{ℕ, none, some, List, ◌==◌, if◌then◌else◌}
use bank_transaction_system.Models.{User, Transaction}
use bank_transaction_system.Schemas.{TransactionListFilters}
use bank_transaction_system.Orm.{attribute_error, Action, pure, raise, or_raise, ◌>>=◌, Orm}
use bank_transaction_system.Crud.Accounts
use bank_transaction_system.Crud.Transactions as Rows
use bank_transaction_system.Crud.Transactions.{LoadedTransaction}
use bank_transaction_system.Services.Failures.{transaction_missing, access_denied}

module _ ⦃orm : Orm⦄ where
  unfoldable pub own_transaction : User → LoadedTransaction → Action Transaction
  own_transaction user (t, none) = raise attribute_error
  own_transaction user (t, some account) =
      if account.user_id == user.id then pure t else raise access_denied

  unfoldable pub get_transaction_for_customer : ℕ → User → Action Transaction
  unfolding own_transaction
  get_transaction_for_customer transaction_id user = do
    found ← Rows.get transaction_id
    loaded ← or_raise found transaction_missing
    own_transaction user loaded

  unfoldable pub list_account_transactions_for_customer :
      ℕ → User → ℕ → ℕ → Action (List Transaction)
  list_account_transactions_for_customer account_id user limit offset = do
    found ← Accounts.get account_id
    account ← or_raise found access_denied
    if account.user_id == user.id
        then Rows.list_by_account account_id limit offset
        else raise access_denied

  unfoldable pub list_transactions_admin : TransactionListFilters → Action (List Transaction)
  list_transactions_admin filters = Rows.list_filtered filters

  unfoldable pub get_transaction_admin : ℕ → Action Transaction
  get_transaction_admin transaction_id = do
    found ← Rows.get transaction_id
    loaded ← or_raise found transaction_missing
    pure loaded.0
