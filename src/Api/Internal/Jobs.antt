-- ===== src/Api/Internal/Jobs.antt =====
-- Who starts the jobs of backend/app/api/api_v1/endpoints/internal.py, and what starts then.
use bank_transaction_system.Base.{ℕ, String, ◌≡◌, true, false, Option, [], ◌∷◌, ◌++◌, str_eq}
use bank_transaction_system.Platform.{Platform}
use bank_transaction_system.Orm.{
  ok, err, Task, run_archive, run_cron, run_daily_backup, Session, Env, Orm,
}
use bank_transaction_system.Deps.{provided, forbidden, internal_auth_dep, verify_internal_api_key}
use bank_transaction_system.Api.Internal.Endpoints.{
  accept_job, add_task, process_scheduled, run_archive_transactions, process_scheduled_transactions,
  accept_daily_backup,
}

abbrev pub with_task : Task → Session → Session
with_task task s = record s { background_tasks = s.background_tasks ++ (task ∷ []) }

module _ ⦃p : Platform⦄ (key : Option String) (s : Session) where
  -- With the internal key, each of the three job endpoints answers that its job is accepted, and
  -- adds the one task of that job to what runs after the response; nothing else changes.
  pub jobs_start :
      str_eq p.internal_service_api_key (provided key) ≡ true
      → (run_archive_transactions key s ≡ (
        ok (record { status = "accepted"; job = "archive-transactions" }),
        with_task run_archive s,
      ))
        × (process_scheduled_transactions key s ≡ (
          ok (record { status = "accepted"; job = "cron-process-scheduled" }),
          with_task run_cron s,
        ))
        × (accept_daily_backup key s ≡ (
          ok (record { status = "accepted"; job = "daily-backup" }),
          with_task run_daily_backup s,
        ))
  unfolding run_archive_transactions process_scheduled_transactions accept_daily_backup
      internal_auth_dep verify_internal_api_key accept_job add_task
  jobs_start good = (rw good, rw good, rw good)

  -- Without the internal key, or with another one, each internal endpoint is answered 403, and
  -- nothing changes: no task is added and no transaction is processed.
  pub jobs_refused :
      ⦃orm : Orm⦄ (env : Env) (i : ℕ)
      → str_eq p.internal_service_api_key (provided key) ≡ false
      → (run_archive_transactions key s ≡ (err forbidden, s))
        × (process_scheduled_transactions key s ≡ (err forbidden, s))
        × (accept_daily_backup key s ≡ (err forbidden, s))
        × (process_scheduled env key i s ≡ (err forbidden, s))
  unfolding run_archive_transactions process_scheduled_transactions accept_daily_backup
      internal_auth_dep verify_internal_api_key process_scheduled
  jobs_refused env i bad = (rw bad, rw bad, rw bad, rw bad)
