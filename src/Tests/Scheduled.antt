-- ===== src/Tests/Scheduled.antt =====
-- Scheduled payments that fall due: `process_scheduled_transaction`, and the cron job.
use bank_transaction_system.Base.{◌≡◌, refl, true, false, some, [], ◌∷◌, arith}
use bank_transaction_system.Base.Rows.{select}
use bank_transaction_system.Base.Int.{pos}
use bank_transaction_system.Models.{Transaction, TransactionType, TransactionStatus}
use bank_transaction_system.Orm.{ok, err, Session}
use bank_transaction_system.Crud.Statements.{numeric_fits}
use bank_transaction_system.Crud.Transactions.{with_status}
use bank_transaction_system.Services.Failures.{already_processing}
use bank_transaction_system.Services.Queue.{message_of}
use bank_transaction_system.Services.Transactions.{process_scheduled_transaction}
use bank_transaction_system.Services.Transactions.Postings.{debited}
use bank_transaction_system.Services.Transactions.Scheduled.{passed}
use bank_transaction_system.Services.Transactions.Claims.{
  claimed_debit_completes, claimed_debit_fails, claimed_international_queued,
}
use bank_transaction_system.Services.Transactions.Once.{processed_once}
use bank_transaction_system.Api.Internal.{run_cron_in_background}
use bank_transaction_system.Api.Internal.Cron.{cron_processes_nothing}
use bank_transaction_system.Tests.Fixtures.{serial, env, env_refusing, account, due, bank, with_due}

-- The session after the payment.
abbrev after_due : Session
after_due = record (with_due due) {
  db =
      passed (with_due due).db due TransactionStatus.completed
        (debited account (pos 200) (with_due due).db).accounts;
  in_transaction = true;
}

due_ran :
    process_scheduled_transaction env 30 (with_due due)
    ≡ (ok (with_status TransactionStatus.completed due), after_due)
unfolding select numeric_fits
due_ran =
    claimed_debit_completes env (with_due due) refl due refl refl account refl refl refl refl
      (ground arith) (omega arith)

claimed_debit_completes_example :
    process_scheduled_transaction env 30 (with_due due)
    ≡ (ok (with_status TransactionStatus.completed due), after_due)
unfolding select numeric_fits
claimed_debit_completes_example =
    claimed_debit_completes env (with_due due) refl due refl refl account refl refl refl refl
      (ground arith) (omega arith)

abbrev large : Transaction
large = record due { amount = pos 900 }

claimed_debit_fails_example : process_scheduled_transaction env 30 (with_due large) ≡ (
  ok (with_status TransactionStatus.failed large),
  record (with_due large) {
    db = passed (with_due large).db large TransactionStatus.failed bank.accounts;
    in_transaction = true;
  },
)
unfolding select
claimed_debit_fails_example =
    claimed_debit_fails env (with_due large) refl large refl refl account refl refl refl
      (ground arith)

abbrev abroad : Transaction
abroad = record due { type = TransactionType.international }

claimed_international_queued_example : process_scheduled_transaction env 30 (with_due abroad) ≡ (
  ok (with_status TransactionStatus.pending abroad),
  record (with_due abroad) {
    db = passed (with_due abroad).db abroad TransactionStatus.pending bank.accounts;
    in_transaction = true;
    sent = message_of abroad ∷ [];
  },
)
unfolding select
claimed_international_queued_example =
    claimed_international_queued env (with_due abroad) refl abroad refl refl refl refl

processed_once_example :
    process_scheduled_transaction env_refusing 30 (record after_due { in_transaction = false })
    ≡ (err already_processing, record after_due { in_transaction = false })
unfolding select
processed_once_example =
    processed_once env (with_due due) refl due refl refl env_refusing
      (with_status TransactionStatus.completed due) after_due due_ran

cron_processes_nothing_example :
    run_cron_in_background env (with_due due)
    ≡ (some (record { total = 1; processed = 0; skipped = 0; errors = 1 }), with_due due)
unfolding select
cron_processes_nothing_example = cron_processes_nothing env (with_due due)
