-- ===== src/System/Runs.antt =====
-- Runs of the whole program, from the empty database or any other.
use bank_transaction_system.Base.{◌≡◌, refl, Bool, true}
use bank_transaction_system.Models.{Db}
use bank_transaction_system.Platform.{Platform}
use bank_transaction_system.Orm.{Session, Env, Orm}
use bank_transaction_system.System.Statements.{Respects, Credits}
use bank_transaction_system.System.Sessions.{cleanup-related}
use bank_transaction_system.System.Queries.{archive-related, cron-related}
use bank_transaction_system.System.Endpoints
use bank_transaction_system.System.Requests.{Request, is_deposit, fresh, serve, Steps}

module _ {R : Db → Db → Type 0} (k : Respects R) ⦃orm : Orm⦄ ⦃p : Platform⦄ where
  -- A relation that the statements respect holds between the databases before and after a request.
  pub serve-related :
      (env : Env) (r : Request) (s : Session)
      → (is_deposit r ≡ true → Credits R)
      → ((d : Db) → R d (env.commits d))
      → R s.db (serve env r s).db
  unfolding serve
  serve-related env (Request.customer_register body) s credits commits =
      (Endpoints.customer_register-related k env commits body).at s
  serve-related env (Request.customer_login email password) s credits commits =
      (Endpoints.customer_login-related k env email password).at s
  serve-related env (Request.admin_login email password) s credits commits =
      (Endpoints.admin_login-related k env email password).at s
  serve-related env (Request.customer_logout token) s credits commits =
      (Endpoints.customer_logout-related k env token).at s
  serve-related env (Request.admin_logout token) s credits commits =
      (Endpoints.admin_logout-related k env token).at s
  serve-related env (Request.admin_register token body) s credits commits =
      (Endpoints.admin_register-related k env commits token body).at s
  serve-related env (Request.add_balance token amount) s credits commits =
      (Endpoints.post_add_balance-related k (credits refl) env token amount).at s
  serve-related env (Request.create_account token u) s credits commits =
      (Endpoints.post_admin_accounts-related k env token u).at s
  serve-related env (Request.create_transaction token payload) s credits commits =
      (Endpoints.create_transaction-endpoint_related k env commits token payload).at s
  serve-related env (Request.get_transaction token i) s credits commits =
      (Endpoints.get_transaction-related k env token i).at s
  serve-related env (Request.get_transaction_admin token i) s credits commits =
      (Endpoints.get_transaction_admin-related k env token i).at s
  serve-related env (Request.list_account_transactions token i limit offset) s credits commits =
      (Endpoints.list_account_transactions-related k env token i limit offset).at s
  serve-related env (Request.list_transactions token q) s credits commits =
      (Endpoints.list_transactions-related k env token q).at s
  serve-related env (Request.process_scheduled key i) s credits commits =
      (Endpoints.process_scheduled-endpoint_related k env key i).at s
  serve-related env (Request.run_archive_transactions key) s credits commits =
      (Endpoints.run_archive_transactions-related k key).at s
  serve-related env (Request.process_scheduled_transactions key) s credits commits =
      (Endpoints.process_scheduled_transactions-related k key).at s
  serve-related env (Request.run_daily_backup key) s credits commits =
      (Endpoints.accept_daily_backup-related k key).at s
  serve-related env (Request.cleanup_task u) s credits commits = cleanup-related k env u s
  serve-related env (Request.archive_task server) s credits commits = archive-related k server s
  serve-related env Request.cron_task s credits commits = cron-related k env s

  -- It holds between the databases before and after a run.
  pub Steps-related :
      {allowed : Request → Bool}
      → ((r : Request) → allowed r ≡ true → is_deposit r ≡ true → Credits R)
      → {d c : Db} → Steps allowed d c
      → R d c
  Steps-related credits (Steps.no_request {d}) = k.pre.reflexive d
  Steps-related credits (Steps.request {d} {c} env r may before meanwhile) =
      k.pre.transitive (Steps-related credits before)
        (serve-related env r (fresh c) (credits r may) (λ e. Steps-related credits (meanwhile e)))
