-- ===== src/System/Requests.antt =====
-- Everything that the program is asked to do: the endpoints of backend/app/api/api_v1/endpoints
-- and the background coroutines. `Steps` is a run of the program: requests one after another, with
-- what the same requests commit in other sessions before an insertion that may lose a race.
-- `SerialSteps` is a run without other sessions.
use bank_transaction_system.Base.{ℕ, String, ◌≡◌, Bool, true, false, Option, []}
use bank_transaction_system.Base.Int.{ℤ}
use bank_transaction_system.Models.{Db}
use bank_transaction_system.Schemas.{UserCreate, TransactionCreate}
use bank_transaction_system.Platform.{Platform}
use bank_transaction_system.Orm.{Session, Env, Orm}
use bank_transaction_system.Services.Archive.{Server}
use bank_transaction_system.Deps.{cleanup_expired_session}
use bank_transaction_system.Api.Auth
use bank_transaction_system.Api.Transactions
use bank_transaction_system.Api.AdminBackoffice
use bank_transaction_system.Api.AdminBackoffice.{ListQuery}
use bank_transaction_system.Api.Accounts.Endpoints.{post_add_balance, post_admin_accounts}
use bank_transaction_system.Api.Internal.{run_cron_in_background}
use bank_transaction_system.Api.Internal.Endpoints as Internal

-- A constructor for an endpoint, with its path, its token or key and its body; the last three are
-- the tasks that the endpoints add.
pub data Request : Type 0 where
  customer_register : UserCreate → Request
  customer_login admin_login : String → String → Request
  customer_logout admin_logout : String → Request
  admin_register : String → UserCreate → Request
  add_balance : String → ℤ → Request
  create_account : String → ℕ → Request
  create_transaction : String → TransactionCreate → Request
  get_transaction get_transaction_admin : String → ℕ → Request
  list_account_transactions : String → ℕ → ℕ → ℕ → Request
  list_transactions : String → ListQuery → Request
  process_scheduled : Option String → ℕ → Request
  run_archive_transactions process_scheduled_transactions run_daily_backup : Option String → Request
  cleanup_task : ℕ → Request
  archive_task : Server → Request
  cron_task : Request

-- The request that brings money in.
abbrev pub is_deposit : Request → Bool
is_deposit (Request.add_balance token amount) = true
is_deposit r = false

-- The session of a request, before it is used.
abbrev pub fresh : Db → Session
fresh d = record { db = d; in_transaction = false; sent = []; background_tasks = [] }

module _ ⦃orm : Orm⦄ ⦃p : Platform⦄ where
  -- The session after a request, whatever its outcome.
  unfoldable pub serve : Env → Request → Session → Session
  serve env (Request.customer_register body) s = (Auth.customer_register env body s).1
  serve env (Request.customer_login email password) s = (Auth.customer_login env email password s).1
  serve env (Request.admin_login email password) s = (Auth.admin_login env email password s).1
  serve env (Request.customer_logout token) s = (Auth.customer_logout env token s).1
  serve env (Request.admin_logout token) s = (Auth.admin_logout env token s).1
  serve env (Request.admin_register token body) s = (Auth.admin_register env token body s).1
  serve env (Request.add_balance token amount) s = (post_add_balance env token amount s).1
  serve env (Request.create_account token u) s = (post_admin_accounts env token u s).1
  serve env (Request.create_transaction token payload) s =
      (Transactions.create_transaction env token payload s).1
  serve env (Request.get_transaction token i) s = (Transactions.get_transaction env token i s).1
  serve env (Request.get_transaction_admin token i) s =
      (AdminBackoffice.get_transaction_admin env token i s).1
  serve env (Request.list_account_transactions token i limit offset) s =
      (Transactions.list_account_transactions env token i limit offset s).1
  serve env (Request.list_transactions token q) s =
      (AdminBackoffice.list_transactions env token q s).1
  serve env (Request.process_scheduled key i) s = (Internal.process_scheduled env key i s).1
  serve env (Request.run_archive_transactions key) s = (Internal.run_archive_transactions key s).1
  serve env (Request.process_scheduled_transactions key) s =
      (Internal.process_scheduled_transactions key s).1
  serve env (Request.run_daily_backup key) s = (Internal.accept_daily_backup key s).1
  serve env (Request.cleanup_task u) s = cleanup_expired_session env u s
  serve env (Request.archive_task server) s = (Internal.run_archive_in_background server s).1
  serve env Request.cron_task s = (run_cron_in_background env s).1

  -- `Steps allowed d d'`: requests that are `allowed` lead from the database `d` to `d'`. At the
  -- points where the model lets other sessions commit (`others_commit`: before a new card's, a new
  -- customer's or a new admin's row is inserted, and after such an insertion is refused), what they
  -- commit comes from requests too, from whatever database they find.
  pub data Steps (allowed : Request → Bool) : Db → Db → Type 0 where
    no_request : {d : Db} → Steps allowed d d
    request :
        {d c : Db} (env : Env) (r : Request)
        → allowed r ≡ true
        → Steps allowed d c
        → ((e : Db) → Steps allowed e (env.commits e))
        → Steps allowed d (serve env r (fresh c)).db

  -- A serial run: no other session commits while a request is served.
  pub data SerialSteps (allowed : Request → Bool) : Db → Db → Type 0 where
    nothing_served : {d : Db} → SerialSteps allowed d d
    served :
        {d c : Db} (env : Env) (r : Request)
        → allowed r ≡ true
        → SerialSteps allowed d c
        → ((e : Db) → env.commits e ≡ e)
        → SerialSteps allowed d (serve env r (fresh c)).db

  pub SerialSteps-Steps :
      (allowed : Request → Bool) {d d' : Db} → SerialSteps allowed d d' → Steps allowed d d'
  SerialSteps-Steps allowed SerialSteps.nothing_served = Steps.no_request
  SerialSteps-Steps allowed (SerialSteps.served env r may before alone) =
      Steps.request env r may (SerialSteps-Steps allowed before)
        (λ e. rw (alone e) Steps.no_request)
