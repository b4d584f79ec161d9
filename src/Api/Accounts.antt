-- ===== src/Api/Accounts.antt =====
-- backend/app/api/api_v1/endpoints/accounts.py, behind its dependencies.
pub mod Balance
pub mod Endpoints
use bank_transaction_system.Base.{ℕ, Bool, Option, none, some}
use bank_transaction_system.Base.Rows.{select}
use bank_transaction_system.Base.Int.{ℤ}
use bank_transaction_system.Models.{User, Account, Db}
use bank_transaction_system.Orm.{
  Error, http, invalid_request, Action, Env, pure, or_raise, raise_if, ◌>>=◌, ◌>>◌, Orm, begin,
}
use bank_transaction_system.Crud.Statements.{select_one}
use bank_transaction_system.Crud.Accounts as Rows
use bank_transaction_system.Crud.Users
use bank_transaction_system.Services.Users.{is_some}

abbrev pub account_not_found : Error
account_not_found = http 404 "Account not found."

abbrev pub user_not_found : Error
user_not_found = http 404 "User not found."

abbrev pub account_exists : Error
account_exists = http 409 "This user already has a bank account."

module _ ⦃orm : Orm⦄ where
  -- The body of the `async with` of `add_balance`.
  unfoldable pub credit : ℤ → User → Action Account
  credit amount user = do
    found ← Rows.get_by_user user.id
    account ← or_raise found account_not_found
    locked ← Rows.get_with_lock account.id
    locked_account ← or_raise locked account_not_found
    Rows.add_balance locked_account amount
    pure locked_account

  -- `await db.refresh(locked_account)`
  unfoldable pub refresh : ℕ → Action Account
  refresh account_id = do
    found ← select_one (λ d. select (Rows.has_id account_id) d.accounts)
    or_raise found invalid_request

  unfoldable pub add_balance : ℤ → User → Action Account
  add_balance amount user = do account ← begin (credit amount user); refresh account.id

  -- The body of the `async with` of `admin_create_account`.
  unfoldable pub open_account : Env → ℕ → Action Account
  open_account env user_id = do
    found ← Users.get user_id
    or_raise found user_not_found
    existing ← Rows.get_by_user user_id
    raise_if (is_some existing) account_exists
    Rows.create env user_id

  unfoldable pub admin_create_account : Env → ℕ → Action Account
  admin_create_account env user_id = begin (open_account env user_id)
