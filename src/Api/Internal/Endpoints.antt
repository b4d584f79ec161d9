-- ===== src/Api/Internal/Endpoints.antt =====
-- The endpoints of backend/app/api/api_v1/endpoints/internal.py, with their dependency, and the
-- background coroutine of the archive.
use bank_transaction_system.Base.{false, ℕ, String, Option, [], ◌∷◌, ◌++◌}
use bank_transaction_system.Schemas.Responses.{TransactionRead, read_transaction}
use bank_transaction_system.Platform.{Platform}
use bank_transaction_system.Orm.{
  Error, Result, ok, err, http, integrity, data_error, multiple_results, invalid_request, sqs_error,
  attribute_error, assertion_error, value_error, Task, run_archive, run_cron, run_daily_backup,
  Session, Action, Env, Orm, pure, ◌>>=◌, ◌>>◌,
}
use bank_transaction_system.Services.Transactions as Service
use bank_transaction_system.Services.Archive.{Server, copy_transactions_to_history}
use bank_transaction_system.Deps.{internal_auth_dep}

-- The body of a 202.
pub record Accepted : Type 0 where
  pub status : String
  pub job : String

-- `background_tasks.add_task`
unfoldable pub add_task : Task → Action (Unit {0})
add_task task s = (ok tt, record s { background_tasks = s.background_tasks ++ (task ∷ []) })

unfoldable pub accept_job : Task → String → Action Accepted
accept_job task job = do add_task task; pure (record { status = "accepted"; job = job })

-- What `_run_archive_in_background` logs.
pub data ArchiveLog : Type 0 where
  success : ℕ → ArchiveLog
  db_error unexpected_error : ArchiveLog

-- `except SQLAlchemyError`
abbrev pub archive_error : Error → ArchiveLog
archive_error (http code detail) = ArchiveLog.unexpected_error
archive_error (integrity c) = ArchiveLog.db_error
archive_error data_error = ArchiveLog.db_error
archive_error multiple_results = ArchiveLog.db_error
archive_error invalid_request = ArchiveLog.db_error
archive_error sqs_error = ArchiveLog.unexpected_error
archive_error attribute_error = ArchiveLog.unexpected_error
archive_error assertion_error = ArchiveLog.unexpected_error
archive_error value_error = ArchiveLog.unexpected_error

abbrev pub archive_log : Result ℕ → ArchiveLog
archive_log (ok rows) = ArchiveLog.success rows
archive_log (err e) = archive_error e

module _ ⦃orm : Orm⦄ where
  -- `_run_archive_in_background` on a new session
  unfoldable pub run_archive_in_background : Server → Session → ArchiveLog × Session
  run_archive_in_background server s =
      let (r, t) = copy_transactions_to_history server (record s { in_transaction = false }) in
      (archive_log r, record t { in_transaction = false })

  module _ ⦃p : Platform⦄ where
    unfoldable pub process_scheduled : Env → Option String → ℕ → Action TransactionRead
    process_scheduled env key transaction_id = do
      internal_auth_dep key
      transaction ← Service.process_scheduled_transaction env transaction_id
      pure (read_transaction transaction)

module _ ⦃p : Platform⦄ where
  unfoldable pub run_archive_transactions : Option String → Action Accepted
  run_archive_transactions key = do
    internal_auth_dep key
    accept_job run_archive "archive-transactions"

  unfoldable pub process_scheduled_transactions : Option String → Action Accepted
  process_scheduled_transactions key = do
    internal_auth_dep key
    accept_job run_cron "cron-process-scheduled"

  unfoldable pub accept_daily_backup : Option String → Action Accepted
  accept_daily_backup key = do internal_auth_dep key; accept_job run_daily_backup "daily-backup"
