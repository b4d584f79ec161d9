-- ===== src/Api/Internal/Cron.antt =====
-- What `_run_cron_in_background` (backend/app/api/api_v1/endpoints/internal.py) does to the due rows.
use bank_transaction_system.Base.{
  ℕ, ◌+◌, ◌≡◌, refl, ◌∙◌, true, false, some, List, [], ◌∷◌, arith, map,
}
use bank_transaction_system.Base.Rows.{length, select}
use bank_transaction_system.Models.{Transaction}
use bank_transaction_system.Orm.{Result, ok, err, http, invalid_request, Session, Env, Orm}
use bank_transaction_system.Crud.Transactions as Rows
use bank_transaction_system.Services.Transactions.{claim_and_run, process_scheduled_transaction}
use bank_transaction_system.Api.Internal.{
  CronJobResult, tally, process_all, run_ids, run_cron_in_background,
}

-- The number of calls that the counters account for.
abbrev pub counted : CronJobResult → ℕ
counted c = c.processed + c.skipped + c.errors

tally-counted :
    (r : Result Transaction) (c : CronJobResult)
    → (counted (tally r c) ≡ counted c + 1) × ((tally r c).total ≡ c.total)
unfolding tally
tally-counted (ok t) c = (omega arith, refl)
tally-counted (err (http code detail)) c = ground arith
tally-counted (err e) c = (omega arith, refl)

module _ ⦃orm : Orm⦄ where
  -- Every identifier of the cron job's batch is counted once, as processed, skipped or an error,
  -- and the total stays.
  pub process_all-counted :
      (env : Env) (ids : List ℕ) (c : CronJobResult) (s : Session)
      → let (c', t) = process_all env ids c s in
        (counted c' ≡ counted c + length ids) × (c'.total ≡ c.total)
  unfolding process_all
  process_all-counted env [] c s = (omega arith, refl)
  process_all-counted env (i ∷ ids) c s =
      let (r, t) = process_scheduled_transaction env i s in
      let h = process_all-counted env ids (tally r c) t in
      let k = tally-counted r c in (h.0 ∙ omega (arith, k.0), h.1 ∙ k.1)

  -- On a session with a transaction begun a call is refused.
  process_busy :
      (env : Env) (i : ℕ) (s : Session)
      → s.in_transaction ≡ true
      → process_scheduled_transaction env i s ≡ (err invalid_request, s)
  unfolding process_scheduled_transaction
  process_busy env i s busy = rw (orm.begin_begun Transaction (claim_and_run env i) s busy)

  process_all_busy :
      (env : Env) (ids : List ℕ) (c : CronJobResult) (s : Session)
      → s.in_transaction ≡ true
      → process_all env ids c s ≡ (record c { errors = c.errors + length ids }, s)
  unfolding process_all tally
  process_all_busy env [] c s busy = ground arith
  process_all_busy env (i ∷ ids) c s busy =
      rw (process_busy env i s busy)
        (process_all_busy env ids (record c { errors = c.errors + 1 }) s busy ∙ ground arith)

  -- The identifiers that the job fetches.
  abbrev pub due_ids : ℕ → Session → List ℕ
  due_ids now s = map (λ (t : Transaction). t.id) (select (Rows.is_due now) s.db.transactions)

  -- The look-up of the due rows begins a transaction on the session that the calls are made on, so
  -- each call's `begin` is refused: the job counts every due row as an error, and the database,
  -- the queue and the tasks are as before.
  pub cron_processes_nothing :
      (env : Env) (s : Session)
      → run_cron_in_background env s ≡ (
        some (record {
          total = length (due_ids env.now s);
          processed = 0;
          skipped = 0;
          errors = length (due_ids env.now s);
        }),
        record s { in_transaction = false },
      )
  unfolding run_cron_in_background run_ids
  cron_processes_nothing env s =
      rw (Rows.get_due_ids_lem env.now (record s { in_transaction = false })) (
        rw
          (process_all_busy env (due_ids env.now s)
            (record { total = length (due_ids env.now s); processed = 0; skipped = 0; errors = 0 })
            (record s { in_transaction = true }) refl)
          (ground arith))
