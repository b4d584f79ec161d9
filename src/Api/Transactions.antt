-- ===== src/Api/Transactions.antt =====
-- backend/app/api/api_v1/endpoints/transactions.py, with the endpoints' dependencies.
pub mod Checks
use bank_transaction_system.Base.{ℕ, String, List, map}
use bank_transaction_system.Schemas.{TransactionCreate}
use bank_transaction_system.Schemas.Responses.{TransactionRead, read_transaction}
use bank_transaction_system.Platform.{Platform}
use bank_transaction_system.Orm.{Action, Env, Orm, pure, ◌>>=◌}
use bank_transaction_system.Services.Transactions as Service
use bank_transaction_system.Services.Queries
use bank_transaction_system.Deps.{customer_dep}

module _ ⦃orm : Orm⦄ ⦃p : Platform⦄ where
  unfoldable pub create_transaction : Env → String → TransactionCreate → Action TransactionRead
  create_transaction env token payload = do
    current_user ← customer_dep env token
    transaction ← Service.create_transaction env payload current_user
    pure (read_transaction transaction)

  unfoldable pub get_transaction : Env → String → ℕ → Action TransactionRead
  get_transaction env token transaction_id = do
    current_user ← customer_dep env token
    transaction ← Queries.get_transaction_for_customer transaction_id current_user
    pure (read_transaction transaction)

  unfoldable pub list_account_transactions :
      Env → String → ℕ → ℕ → ℕ → Action (List TransactionRead)
  list_account_transactions env token account_id limit offset = do
    current_user ← customer_dep env token
    transactions ←
        Queries.list_account_transactions_for_customer account_id current_user limit offset
    pure (map read_transaction transactions)
