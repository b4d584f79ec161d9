-- ===== src/System/Queries.antt =====
-- What the read-only functions and the background tasks write: backend/app/services and
-- backend/app/api/api_v1/endpoints/internal.py.
use bank_transaction_system.Base.{ℕ, String, false, none, some, List, [], ◌∷◌}
use bank_transaction_system.Models.{User, Db}
use bank_transaction_system.Schemas.{TransactionListFilters}
use bank_transaction_system.Orm.{Result, ok, err, Session, Env, Orm, Task}
use bank_transaction_system.Orm.Relates.{Relates, Relates-execute, Relates-begin}
use bank_transaction_system.Crud.Accounts
use bank_transaction_system.Crud.Transactions as Rows
use bank_transaction_system.Crud.Transactions.{LoadedTransaction}
use bank_transaction_system.Services.Transactions as Payments
use bank_transaction_system.Crud.Reads.{select_one-kept, reading-kept}
use bank_transaction_system.Services.Queries
use bank_transaction_system.Services.Queries.{own_transaction}
use bank_transaction_system.Services.Archive.{Server, copy_transactions_to_history}
use bank_transaction_system.Crud.Statements.{select_all}
use bank_transaction_system.Api.Internal.{
  CronJobResult, process_all, run_ids, run_cron_in_background,
}
use bank_transaction_system.Api.Internal.Endpoints.{accept_job, add_task, run_archive_in_background}
use bank_transaction_system.System.Statements.{Respects, action_rules}

module _ {R : Db → Db → Type 0} (k : Respects R) ⦃orm : Orm⦄ where
  select_all-related : {A : Type 0} (q : Db → List A) → Relates R (select_all q)
  unfolding select_all
  select_all-related q = reading-kept k.pre q

  get_account-related : (i : ℕ) → Relates R (Accounts.get i)
  unfolding Accounts.get
  get_account-related i = select_one-kept k.pre _

  get_transaction-row_related : (i : ℕ) → Relates R (Rows.get i)
  unfolding Rows.get
  get_transaction-row_related i = select_one-kept k.pre _

  list_by_account-related : (i limit offset : ℕ) → Relates R (Rows.list_by_account i limit offset)
  unfolding Rows.list_by_account
  list_by_account-related i limit offset = select_all-related _

  list_filtered-related : (f : TransactionListFilters) → Relates R (Rows.list_filtered f)
  unfolding Rows.list_filtered
  list_filtered-related f = select_all-related _

  own_transaction-related :
      (user : User) (l : LoadedTransaction) → Relates R (own_transaction user l)
  unfolding own_transaction
  own_transaction-related user (t, none) = search (k.pre, action_rules)
  own_transaction-related user (t, some a) = search (k.pre, action_rules)

  ruleset query_rules = (
    action_rules, get_account-related, list_by_account-related, list_filtered-related,
    own_transaction-related, get_transaction-row_related,
  )

  pub get_for_customer-related :
      (i : ℕ) (user : User) → Relates R (Queries.get_transaction_for_customer i user)
  unfolding Queries.get_transaction_for_customer
  get_for_customer-related i user = search (k.pre, query_rules)

  pub list_account-related :
      (i : ℕ) (user : User) (limit offset : ℕ)
      → Relates R (Queries.list_account_transactions_for_customer i user limit offset)
  unfolding Queries.list_account_transactions_for_customer
  list_account-related i user limit offset = search (k.pre, query_rules) depth 8

  pub get_admin-related : (i : ℕ) → Relates R (Queries.get_transaction_admin i)
  unfolding Queries.get_transaction_admin
  get_admin-related i = search (k.pre, query_rules)

  pub list_admin-related :
      (f : TransactionListFilters) → Relates R (Queries.list_transactions_admin f)
  unfolding Queries.list_transactions_admin
  list_admin-related f = list_filtered-related f

  pub accept_job-related : (task : Task) (job : String) → Relates R (accept_job task job)
  unfolding accept_job add_task
  accept_job-related task job = record { at = λ s. k.pre.reflexive s.db }

  pub archive-related :
      (server : Server) (s : Session) → R s.db (run_archive_in_background server s).1.db
  unfolding run_archive_in_background copy_transactions_to_history
  archive-related server s =
      (Relates-begin k.pre _ (Relates-execute k.pre _ (k.archived server))).at
        (record s { in_transaction = false })

  process_all-related :
      (env : Env) (ids : List ℕ) (c : CronJobResult) (s : Session)
      → R s.db (process_all env ids c s).1.db
  unfolding process_all
  process_all-related env [] c s = k.pre.reflexive s.db
  process_all-related env (i ∷ ids) c s =
      k.pre.transitive ((k.payments.processed env i).at s)
        (process_all-related env ids _ (Payments.process_scheduled_transaction env i s).1)

  run_ids-related :
      (env : Env) (d : Db) (r : Result (List ℕ) × Session) → R d r.1.db → R d (run_ids env r).1.db
  unfolding run_ids
  run_ids-related env d (ok ids, s) h = k.pre.transitive h (process_all-related env ids _ s)
  run_ids-related env d (err e, s) h = h

  pub cron-related : (env : Env) (s : Session) → R s.db (run_cron_in_background env s).1.db
  unfolding run_cron_in_background Rows.get_due_ids
  cron-related env s =
      run_ids-related env s.db _ ((select_all-related _).at (record s { in_transaction = false }))
