-- ===== src/Services/Transactions.antt =====
-- backend/app/services/transaction_service.py. The body of an `async with db.begin()` is a function
-- of its own.
pub mod Writes
pub mod Balances
pub mod Lifecycle
pub mod Ledger
pub mod Steps
pub mod Postings
pub mod Outcomes
pub mod Deferred
pub mod Scheduled
pub mod Claims
pub mod Stale
pub mod Once
use bank_transaction_system.Base.{
  ℕ, Bool, true, false, Option, none, some, List, ◌==◌, if◌then◌else◌, not, ◌&&◌, ltb, map,
}
use bank_transaction_system.Base.Rows.{select}
use bank_transaction_system.Base.Int.{ℤ, leb_ℤ}
use bank_transaction_system.Models.{
  User, Account, Card, CardType, Transaction, TransactionType, TransactionMethod, TransactionStatus,
  type_eq, method_eq, status_eq, Db,
}
use bank_transaction_system.Schemas.{TransactionCreate, TransactionListFilters}
use bank_transaction_system.Platform.{Platform}
use bank_transaction_system.Orm.{
  invalid_request, attribute_error, assertion_error, Action, Env, pure, raise, or_raise, raise_if,
  ◌>>=◌, ◌>>◌, Orm, begin,
}
use bank_transaction_system.Crud.Statements.{select_one}
use bank_transaction_system.Crud.Accounts
use bank_transaction_system.Crud.Transactions as Rows
use bank_transaction_system.Crud.Transactions.{LoadedTransaction, NewTransaction}
use bank_transaction_system.Services.Failures.{
  original_missing, insufficient_funds, transaction_missing, already_processing, origin_missing,
  access_denied,
}
use bank_transaction_system.Services.Queue.{publish_international_payment}
use bank_transaction_system.Services.Cards.{resolve_card}

-- `TransactionMethod(card.card_type.value)`
abbrev pub method_of : CardType → TransactionMethod
method_of CardType.debit = TransactionMethod.debit
method_of CardType.credit = TransactionMethod.credit

-- `payload.scheduled_for and payload.scheduled_for > now`
abbrev pub is_future : Option ℕ → ℕ → Bool
is_future none now = false
is_future (some at) now = ltb now at

-- What `route` leaves: a transaction that is returned at once, or the national one, which the
-- check after the commit reads.
pub data Routed : Type 0 where
  returned processed : Transaction → Routed

-- After the commit: a debit that was rejected raises.
unfoldable pub after_commit : TransactionMethod → Routed → Action Transaction
after_commit method (Routed.returned t) = pure t
after_commit method (Routed.processed t) =
    if method_eq method TransactionMethod.debit && status_eq t.status TransactionStatus.failed
    then raise insufficient_funds
    else pure t

-- The keyword arguments that all branches share; the status is each branch's own.
abbrev pub row_of : TransactionCreate → Card → TransactionStatus → NewTransaction
row_of payload card status = record {
  source_card = card.id;
  origin_account = card.account_id;
  destination_account = payload.destination_account;
  amount = payload.amount;
  transaction_type = payload.type;
  method = method_of card.card_type;
  status = status;
  scheduled_for = none;
  reversal_of = payload.reversal_of;
}

module _ ⦃orm : Orm⦄ where
  -- `if payload.reversal_of is not None: ...`
  unfoldable pub check_reversal : Option ℕ → Action (Unit {0})
  check_reversal none = pure tt
  check_reversal (some original) = do
    found ← Rows.get original
    or_raise found original_missing
    pure tt

  unfoldable pub settle_debit : Account → ℤ → Action TransactionStatus
  settle_debit account amount =
      if leb_ℤ amount account.balance
      then (Accounts.deduct_balance account amount >> pure TransactionStatus.completed)
      else pure TransactionStatus.failed

  -- The balance check of a debit card, with the deduction.
  unfoldable pub final_status : TransactionMethod → ℕ → ℤ → Action TransactionStatus
  final_status TransactionMethod.debit origin_account_id amount = do
    found ← Accounts.get_with_lock origin_account_id
    account ← or_raise found origin_missing
    settle_debit account amount
  final_status TransactionMethod.credit origin_account_id amount = pure TransactionStatus.completed

  -- The end of `_process_national`: `n.status` is the final status.
  unfoldable pub persist : Env → NewTransaction → Option ℕ → Action Transaction
  persist env n (some existing) = do
    Rows.update_status existing n.status TransactionStatus.processing
    found ← Rows.get existing
    loaded ← or_raise found assertion_error
    pure loaded.0
  persist env n none = Rows.create env n

  -- `_process_national`: the status that `n` comes with is not read.
  unfoldable pub process_national : Env → NewTransaction → Option ℕ → Action Transaction
  process_national env n existing = do
    final ← final_status n.method n.origin_account n.amount
    persist env (record n { status = final }) existing

  -- The branches of the decision tree.
  unfoldable pub schedule : Env → TransactionCreate → Card → Action Routed
  schedule env payload card = do
    t ← Rows.create env (record (row_of payload card TransactionStatus.scheduled) {
      scheduled_for = payload.scheduled_for;
    })
    pure (Routed.returned t)

  unfoldable pub queue_international : Env → TransactionCreate → Card → Action Routed
  queue_international env payload card = do
    t ← Rows.create env (row_of payload card TransactionStatus.pending)
    publish_international_payment env t
    pure (Routed.returned t)

  unfoldable pub pay_national : Env → TransactionCreate → Card → Action Routed
  pay_national env payload card = do
    t ←
        process_national env
          (record (row_of payload card TransactionStatus.pending) {
            transaction_type = TransactionType.national;
          })
          none
    pure (Routed.processed t)

  unfoldable pub branch : Env → TransactionCreate → Card → Action Routed
  branch env payload card =
      if is_future payload.scheduled_for env.now
      then schedule env payload card
      else if type_eq payload.type TransactionType.international
      then queue_international env payload card
      else pay_national env payload card

  -- The body of the `async with` of `create_transaction`.
  unfoldable pub route : Env → TransactionCreate → Card → Action Routed
  route env payload card = do check_reversal payload.reversal_of; branch env payload card

  unfoldable pub create_transaction :
      ⦃p : Platform⦄ → Env → TransactionCreate → User → Action Transaction
  create_transaction env payload user = do
    card ← resolve_card env payload.card user
    routed ← begin (route env payload card)
    after_commit (method_of card.card_type) routed

  -- `await db.refresh(transaction)`
  unfoldable pub refresh : ℕ → Action Transaction
  refresh transaction_id = do
    found ← select_one (λ d. select (Rows.has_id transaction_id) d.transactions)
    or_raise found invalid_request

  unfoldable pub run_claimed : Env → Transaction → Action (Unit {0})
  run_claimed env t =
      if type_eq t.type TransactionType.international
      then (do
        Rows.update_status t.id TransactionStatus.pending TransactionStatus.processing
        publish_international_payment env t)
      else (do
        process_national env
            (record {
              source_card = t.source_card;
              origin_account = t.origin_account;
              destination_account = t.destination_account;
              amount = t.amount;
              transaction_type = TransactionType.national;
              method = t.method;
              status = TransactionStatus.processing;
              scheduled_for = none;
              reversal_of = none;
            })
            (some t.id)
        pure tt)

  -- The body of the `async with` of `process_scheduled_transaction`.
  unfoldable pub claim_and_run : Env → ℕ → Action Transaction
  claim_and_run env transaction_id = do
    found ← Rows.get transaction_id
    loaded ← or_raise found transaction_missing
    claimed ←
        Rows.update_status transaction_id TransactionStatus.processing TransactionStatus.scheduled
    raise_if (not claimed) already_processing
    run_claimed env loaded.0
    pure loaded.0

  unfoldable pub process_scheduled_transaction : Env → ℕ → Action Transaction
  process_scheduled_transaction env transaction_id = do
    t ← begin (claim_and_run env transaction_id)
    refresh t.id
