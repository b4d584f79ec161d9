-- ===== src/Services/Transactions/Claims.antt =====
-- What becomes of a SCHEDULED row that is claimed (`process_scheduled_transaction` of
-- backend/app/services/transaction_service.py), by its type, its method and the balance.
use bank_transaction_system.Base.{◌≡◌, refl, ◌∙◌, true, false, List, [], ◌∷◌, ◌++◌, arith}
use bank_transaction_system.Base.Rows.{select}
use bank_transaction_system.Base.Int.{pos, leb_ℤ, ◌≤ℤ◌}
use bank_transaction_system.Models.{
  Account, Transaction, TransactionType, TransactionMethod, TransactionStatus, status_eq,
}
use bank_transaction_system.Orm.{ok, err, sqs_error, Session, Env, Orm}
use bank_transaction_system.Crud.Statements.{numeric_fits}
use bank_transaction_system.Crud.Accounts.{has_id}
use bank_transaction_system.Crud.Transactions as Rows
use bank_transaction_system.Crud.Transactions.{with_status, set_status}
use bank_transaction_system.Services.Queue.{publish_international_payment, message_of}
use bank_transaction_system.Services.Transactions.{
  final_status, persist, process_national, run_claimed, process_scheduled_transaction,
}
use bank_transaction_system.Services.Transactions.Steps.{final_status_enough, final_status_short}
use bank_transaction_system.Services.Transactions.Postings.{debited, store_debit}
use bank_transaction_system.Services.Transactions.Scheduled.{
  passed, claimed_db, only_passed, claimed_lem, process_refused,
}

module _ ⦃orm : Orm⦄ (env : Env) (s : Session) (idle : s.in_transaction ≡ false) (t : Transaction)
    (only : select (Rows.has_id t.id) s.db.transactions ≡ t ∷ [])
    (scheduled : status_eq t.status TransactionStatus.scheduled ≡ true) where
  abbrev after_claim : Session
  after_claim = record s { db = claimed_db s.db t; in_transaction = true }

  -- A national payment, once its final status is known.
  settled :
      (st : TransactionStatus) (accounts : List Account)
      → t.type ≡ TransactionType.national
      → final_status t.method t.origin_account t.amount after_claim
        ≡ (ok st, record after_claim { db = record after_claim.db { accounts = accounts } })
      → process_scheduled_transaction env t.id s ≡ (
        ok (with_status st t),
        record s { db = passed s.db t st accounts; in_transaction = true },
      )
  unfolding run_claimed process_national persist set_status
  settled st accounts national final =
      claimed_lem env s idle t only scheduled
        (record s { db = passed s.db t st accounts; in_transaction = true }) st accounts
        (simp (
          national,
          final,
          Rows.update_status_lem,
          Rows.get_lem,
          only_passed env s idle t only scheduled st accounts,
        ))
        refl

  -- On a session without a transaction, a SCHEDULED national debit row, alone with its identifier
  -- and of a positive amount, whose account's balance fits the column and covers the amount:
  -- whether its time has come or not, the row ends COMPLETED, and the balance falls by the amount.
  pub claimed_debit_completes :
      (account : Account)
      → t.type ≡ TransactionType.national
      → t.method ≡ TransactionMethod.debit
      → select (has_id t.origin_account) s.db.accounts ≡ account ∷ []
      → numeric_fits account.balance ≡ true
      → ¬ (t.amount ≤ℤ pos 0)
      → t.amount ≤ℤ account.balance
      → process_scheduled_transaction env t.id s ≡ (
        ok (with_status TransactionStatus.completed t),
        record s {
          db = passed s.db t TransactionStatus.completed (debited account t.amount s.db).accounts;
          in_transaction = true;
        },
      )
  claimed_debit_completes account national debit found fits positive enough =
      let covered : leb_ℤ t.amount account.balance ≡ true = ground arith in
      let above : leb_ℤ t.amount (pos 0) ≡ false = ground arith in
      settled TransactionStatus.completed (debited account t.amount s.db).accounts national (
        rw debit (
          final_status_enough t.origin_account t.amount account
            (debited account t.amount after_claim.db) after_claim found covered
            (store_debit account t.amount after_claim.db fits above covered)))

  -- On a session without a transaction, a SCHEDULED national debit row, alone with its identifier,
  -- whose account does not cover the amount: whether its time has come or not, the row ends FAILED
  -- and is returned, nothing is raised, and no balance changes.
  pub claimed_debit_fails :
      (account : Account)
      → t.type ≡ TransactionType.national
      → t.method ≡ TransactionMethod.debit
      → select (has_id t.origin_account) s.db.accounts ≡ account ∷ []
      → ¬ (t.amount ≤ℤ account.balance)
      → process_scheduled_transaction env t.id s ≡ (
        ok (with_status TransactionStatus.failed t),
        record s {
          db = passed s.db t TransactionStatus.failed s.db.accounts;
          in_transaction = true;
        },
      )
  claimed_debit_fails account national debit found short =
      let uncovered : leb_ℤ t.amount account.balance ≡ false = ground arith in
      settled TransactionStatus.failed s.db.accounts national (
        rw debit (final_status_short t.origin_account t.amount account after_claim found uncovered))

  -- On a session without a transaction, a SCHEDULED international row, alone with its identifier,
  -- whose message SQS accepts: whether its time has come or not, one message of it is sent, and
  -- the row ends PENDING.
  pub claimed_international_queued :
      t.type ≡ TransactionType.international
      → env.sqs_accepts (message_of t) ≡ true
      → process_scheduled_transaction env t.id s ≡ (
        ok (with_status TransactionStatus.pending t),
        record s {
          db = passed s.db t TransactionStatus.pending s.db.accounts;
          in_transaction = true;
          sent = s.sent ++ (message_of t ∷ []);
        },
      )
  unfolding run_claimed publish_international_payment set_status
  claimed_international_queued international accepted =
      claimed_lem env s idle t only scheduled
        (record s {
          db = passed s.db t TransactionStatus.pending s.db.accounts;
          in_transaction = true;
          sent = s.sent ++ (message_of t ∷ []);
        })
        TransactionStatus.pending s.db.accounts
        (simp (international, Rows.update_status_lem, accepted)) refl

  -- On a session without a transaction, a SCHEDULED international row, alone with its identifier,
  -- whose message SQS refuses: the exception is passed on, and the row is still SCHEDULED.
  pub claimed_refused_rolls_back :
      t.type ≡ TransactionType.international
      → env.sqs_accepts (message_of t) ≡ false
      → process_scheduled_transaction env t.id s ≡ (err sqs_error, s)
  unfolding run_claimed publish_international_payment set_status
  claimed_refused_rolls_back international refused =
      process_refused env s idle t only scheduled sqs_error
        (record s {
          db = passed s.db t TransactionStatus.pending s.db.accounts;
          in_transaction = true;
        })
        (simp (international, Rows.update_status_lem, refused))
      ∙ rw (← idle)
