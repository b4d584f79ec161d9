-- ===== src/System/Endpoints.antt =====
-- What the endpoints write: backend/app/api/api_v1/endpoints.
use bank_transaction_system.Base.{ℕ, String, Option, Bool-cases, inl, inr}
use bank_transaction_system.Base.Int.{ℤ}
use bank_transaction_system.Models.{Db}
use bank_transaction_system.Schemas.{UserCreate, TransactionCreate}
use bank_transaction_system.Platform.{Platform}
use bank_transaction_system.Orm.{Env, Orm}
use bank_transaction_system.Orm.Relates.{Relates}
use bank_transaction_system.Deps.{internal_auth_dep}
use bank_transaction_system.Api.Auth
use bank_transaction_system.Api.Transactions
use bank_transaction_system.Api.AdminBackoffice
use bank_transaction_system.Api.AdminBackoffice.{ListQuery}
use bank_transaction_system.Api.Accounts.Endpoints.{
  post_add_balance, post_admin_accounts, refuses_amount,
}
use bank_transaction_system.Api.Internal.Endpoints.{
  process_scheduled, run_archive_transactions, process_scheduled_transactions, accept_daily_backup,
}
use bank_transaction_system.System.Statements.{Respects, Credits, action_rules}
use bank_transaction_system.System.Sessions.{
  logout-related, login-related, get_current_user-related, customer_dep-related, admin_dep-related,
}
use bank_transaction_system.System.Users.{
  add_balance-related, admin_create_account-related, register_customer-related,
  create_admin-related,
}
use bank_transaction_system.System.Queries.{
  get_for_customer-related, list_account-related, get_admin-related, list_admin-related,
  accept_job-related,
}

module _ {R : Db → Db → Type 0} (k : Respects R) ⦃orm : Orm⦄ ⦃p : Platform⦄ where
  ruleset endpoint_rules =
      (action_rules, customer_dep-related, admin_dep-related, get_current_user-related)

  pub customer_login-related :
      (env : Env) (email password : String) → Relates R (Auth.customer_login env email password)
  unfolding Auth.customer_login
  customer_login-related env email password = search (k.pre, k, endpoint_rules, login-related)

  pub admin_login-related :
      (env : Env) (email password : String) → Relates R (Auth.admin_login env email password)
  unfolding Auth.admin_login
  admin_login-related env email password = search (k.pre, k, endpoint_rules, login-related)

  pub customer_logout-related :
      (env : Env) (token : String) → Relates R (Auth.customer_logout env token)
  unfolding Auth.customer_logout
  customer_logout-related env token = search (k.pre, k, endpoint_rules, logout-related)

  pub admin_logout-related : (env : Env) (token : String) → Relates R (Auth.admin_logout env token)
  unfolding Auth.admin_logout
  admin_logout-related env token = search (k.pre, k, endpoint_rules, logout-related)

  pub get_transaction-related :
      (env : Env) (token : String) (i : ℕ) → Relates R (Transactions.get_transaction env token i)
  unfolding Transactions.get_transaction
  get_transaction-related env token i = search (k.pre, k, endpoint_rules, get_for_customer-related)

  pub list_account_transactions-related :
      (env : Env) (token : String) (i limit offset : ℕ)
      → Relates R (Transactions.list_account_transactions env token i limit offset)
  unfolding Transactions.list_account_transactions
  list_account_transactions-related env token i limit offset =
      search (k.pre, k, endpoint_rules, list_account-related)

  pub list_transactions-related :
      (env : Env) (token : String) (q : ListQuery)
      → Relates R (AdminBackoffice.list_transactions env token q)
  unfolding AdminBackoffice.list_transactions
  list_transactions-related env token q =
      search (k.pre, k, endpoint_rules, list_admin-related) depth 8

  pub get_transaction_admin-related :
      (env : Env) (token : String) (i : ℕ)
      → Relates R (AdminBackoffice.get_transaction_admin env token i)
  unfolding AdminBackoffice.get_transaction_admin
  get_transaction_admin-related env token i = search (k.pre, k, endpoint_rules, get_admin-related)

  pub post_add_balance-related :
      (c : Credits R) (env : Env) (token : String) (amount : ℤ)
      → Relates R (post_add_balance env token amount)
  unfolding post_add_balance
  post_add_balance-related c env token amount = elim (Bool-cases (refuses_amount amount)) [
    | inl refused ↦ rw refused (search (k.pre, k, endpoint_rules) depth 8)
    | inr positive ↦
        rw positive (search (k.pre, k, endpoint_rules, add_balance-related k c, positive) depth 8)
  ]

  pub post_admin_accounts-related :
      (env : Env) (token : String) (u : ℕ) → Relates R (post_admin_accounts env token u)
  unfolding post_admin_accounts
  post_admin_accounts-related env token u =
      search (k.pre, k, endpoint_rules, admin_create_account-related)

  internal_auth_dep-related : (key : Option String) → Relates R (internal_auth_dep key)
  unfolding internal_auth_dep
  internal_auth_dep-related key = search (k.pre, action_rules)

  pub process_scheduled-endpoint_related :
      (env : Env) (key : Option String) (i : ℕ) → Relates R (process_scheduled env key i)
  unfolding process_scheduled
  process_scheduled-endpoint_related env key i =
      search (k.pre, k.payments.processed, action_rules, internal_auth_dep-related)

  ruleset job_rules = (action_rules, internal_auth_dep-related, accept_job-related)

  pub run_archive_transactions-related :
      (key : Option String) → Relates R (run_archive_transactions key)
  unfolding run_archive_transactions
  run_archive_transactions-related key = search (k.pre, k, job_rules)

  pub process_scheduled_transactions-related :
      (key : Option String) → Relates R (process_scheduled_transactions key)
  unfolding process_scheduled_transactions
  process_scheduled_transactions-related key = search (k.pre, k, job_rules)

  pub accept_daily_backup-related : (key : Option String) → Relates R (accept_daily_backup key)
  unfolding accept_daily_backup
  accept_daily_backup-related key = search (k.pre, k, job_rules)

  -- The relation holds of what other sessions commit meanwhile too.
  module _ (env : Env) (commits : (d : Db) → R d (env.commits d)) where
    pub create_transaction-endpoint_related :
        (token : String) (payload : TransactionCreate)
        → Relates R (Transactions.create_transaction env token payload)
    unfolding Transactions.create_transaction
    create_transaction-endpoint_related token payload =
        search (k.pre, k, endpoint_rules, k.payments.created, commits)

    pub customer_register-related :
        (body : UserCreate) → Relates R (Auth.customer_register env body)
    unfolding Auth.customer_register
    customer_register-related body =
        search (k.pre, k, endpoint_rules, register_customer-related, commits)

    pub admin_register-related :
        (token : String) (body : UserCreate) → Relates R (Auth.admin_register env token body)
    unfolding Auth.admin_register
    admin_register-related token body =
        search (k.pre, k, endpoint_rules, create_admin-related, commits)
