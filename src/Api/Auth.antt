-- ===== src/Api/Auth.antt =====
-- backend/app/api/api_v1/endpoints/auth.py, with the endpoints' dependencies. The rate limits are
-- left out.
use bank_transaction_system.Base.{String}
use bank_transaction_system.Models.{UserRole}
use bank_transaction_system.Schemas.{UserCreate}
use bank_transaction_system.Schemas.Responses.{
  LoginResponse, CustomerRegistrationResponse, UserReadAdmin, read_login, read_registration,
  read_admin,
}
use bank_transaction_system.Platform.{Platform}
use bank_transaction_system.Orm.{Action, Env, Orm, pure, ◌>>=◌, ◌>>◌}
use bank_transaction_system.Services.Users
use bank_transaction_system.Services.Auth
use bank_transaction_system.Deps.{customer_dep, admin_dep}

module _ ⦃orm : Orm⦄ ⦃p : Platform⦄ where
  unfoldable pub customer_register : Env → UserCreate → Action CustomerRegistrationResponse
  customer_register env body = do
    registered ← Users.register_customer env body
    pure (read_registration registered)

  unfoldable pub customer_login : Env → String → String → Action LoginResponse
  customer_login env email password = do
    opened ← Auth.login env email password UserRole.customer
    pure (read_login opened)

  unfoldable pub customer_logout : Env → String → Action (Unit {0})
  customer_logout env token = do current_user ← customer_dep env token; Auth.logout env current_user

  unfoldable pub admin_login : Env → String → String → Action LoginResponse
  admin_login env email password = do
    opened ← Auth.login env email password UserRole.admin
    pure (read_login opened)

  unfoldable pub admin_logout : Env → String → Action (Unit {0})
  admin_logout env token = do current_user ← admin_dep env token; Auth.logout env current_user

  unfoldable pub admin_register : Env → String → UserCreate → Action UserReadAdmin
  admin_register env token body = do
    admin_dep env token
    user ← Users.create_admin env body
    pure (read_admin user)
