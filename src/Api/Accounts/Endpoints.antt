-- ===== src/Api/Accounts/Endpoints.antt =====
-- backend/app/api/api_v1/endpoints/accounts.py with the endpoints' dependencies, their payloads
-- (backend/app/schemas/account.py) and their responses.
use bank_transaction_system.Base.{ℕ, String, Bool}
use bank_transaction_system.Base.Int.{ℤ, pos, leb_ℤ}
use bank_transaction_system.Schemas.Responses.{AccountRead, read_account}
use bank_transaction_system.Platform.{Platform}
use bank_transaction_system.Orm.{Error, http, Action, Env, Orm, pure, raise_if, ◌>>=◌, ◌>>◌}
use bank_transaction_system.Api.Accounts as Endpoint
use bank_transaction_system.Deps.{get_current_user, admin_dep}

-- A payload that its schema refuses.
abbrev pub unprocessable : Error
unprocessable = http 422 "Unprocessable Entity"

-- `AccountAddBalance.amount` is above zero.
abbrev pub refuses_amount : ℤ → Bool
refuses_amount amount = leb_ℤ amount (pos 0)

module _ ⦃orm : Orm⦄ ⦃p : Platform⦄ where
  -- The dependencies are resolved before the body is validated.
  unfoldable pub post_add_balance : Env → String → ℤ → Action AccountRead
  post_add_balance env token amount = do
    current_user ← get_current_user env token
    raise_if (refuses_amount amount) unprocessable
    account ← Endpoint.add_balance amount current_user
    pure (read_account account)

  unfoldable pub post_admin_accounts : Env → String → ℕ → Action AccountRead
  post_admin_accounts env token user_id = do
    admin_dep env token
    account ← Endpoint.admin_create_account env user_id
    pure (read_account account)
