-- ===== src/Api/Internal.antt =====
-- backend/app/api/api_v1/endpoints/internal.py: the background coroutine of the cron endpoint.
pub mod Cron
pub mod Endpoints
pub mod Jobs
use bank_transaction_system.Base.{
  ℕ, ◌+◌, Bool, true, false, Option, none, some, List, [], ◌∷◌, ◌==◌, if◌then◌else◌,
}
use bank_transaction_system.Base.Rows.{length}
use bank_transaction_system.Models.{Transaction}
use bank_transaction_system.Orm.{Error, Result, ok, err, http, Session, Action, Env, Orm}
use bank_transaction_system.Crud.Transactions as Rows
use bank_transaction_system.Services.Transactions.{process_scheduled_transaction}

-- `CronJobResult` of backend/app/schemas/internal.py
pub record CronJobResult : Type 0 where
  pub total : ℕ
  pub processed : ℕ
  pub skipped : ℕ
  pub errors : ℕ

-- The counters after one call: a 409 is skipped, any other exception is an error.
unfoldable pub tally : Result Transaction → CronJobResult → CronJobResult
tally (ok t) c = record c { processed = c.processed + 1 }
tally (err (http code detail)) c =
    if code == 409 then record c { skipped = c.skipped + 1 } else record c { errors = c.errors + 1 }
tally (err e) c = record c { errors = c.errors + 1 }

module _ ⦃orm : Orm⦄ where
  -- The `for` loop; each call leaves the session to the next.
  unfoldable pub process_all : Env → List ℕ → CronJobResult → Session → CronJobResult × Session
  process_all env [] c s = (c, s)
  process_all env (tid ∷ ids) c s =
      let (r, t) = process_scheduled_transaction env tid s in process_all env ids (tally r c) t

  unfoldable pub run_ids : Env → Result (List ℕ) × Session → Option CronJobResult × Session
  run_ids env (ok ids, s) =
      let (c, t) =
        process_all env ids (record { total = length ids; processed = 0; skipped = 0; errors = 0 })
          s in
      (some c, t)
  run_ids env (err e, s) = (none, s)

  -- `_run_cron_in_background` on a new session: the result that it logs, or `none` if it logs an
  -- exception. Closing the session ends the transaction that is begun on it.
  unfoldable pub run_cron_in_background : Env → Session → Option CronJobResult × Session
  run_cron_in_background env s =
      let (c, t) = run_ids env (Rows.get_due_ids env.now (record s { in_transaction = false })) in
      (c, record t { in_transaction = false })
