-- ===== src/Tests/Payments.antt =====
-- Payments: `create_transaction`.
use bank_transaction_system.Base.{◌≡◌, refl, true, sym, some, [], ◌∷◌, arith}
use mathlib.Core.List.{append-nil}
use bank_transaction_system.Base.Rows.{select, find, exists_row, update_rows}
use bank_transaction_system.Base.Int.{pos, ◌-ℤ◌}
use bank_transaction_system.Models.{Transaction, TransactionType, TransactionStatus}
use bank_transaction_system.Schemas.{TransactionCreate}
use bank_transaction_system.Platform.{hmac_pan, strip_hyphens}
use bank_transaction_system.Orm.{Session, ok, err, invalid_request, sqs_error, Env}
use bank_transaction_system.Crud.Statements.{select_one, numeric_fits}
use bank_transaction_system.Crud.Cards
use bank_transaction_system.Crud.Transactions.{insert_transaction, new_transaction}
use bank_transaction_system.Services.Failures.{insufficient_funds}
use bank_transaction_system.Services.Queue.{message_of}
use bank_transaction_system.Services.Cards.{resolve_card, get_or_create, own_or_create, own_card}
use bank_transaction_system.Services.Cards.Race.{race_fails}
use bank_transaction_system.Services.Cards.Ownership.{OwnedBy, resolve_card-OwnedBy}
use bank_transaction_system.Services.Transactions.{create_transaction, row_of}
use bank_transaction_system.Services.Transactions.Postings.{national_row, debited}
use bank_transaction_system.Services.Transactions.Stale.{final_status_held, concurrent_balance_lost}
use bank_transaction_system.Services.Transactions.Outcomes.{
  debit_completes, debit_rejected, committed,
}
use bank_transaction_system.Services.Transactions.Deferred.{
  future_is_scheduled, scheduled_row, international_is_queued, refused_message_rolls_back,
}
use bank_transaction_system.Services.Transactions.Lifecycle.{Extends, create_transaction-Extends}
use bank_transaction_system.Orm.Ends.{Ends}
use bank_transaction_system.Tests.Fixtures.{
  on_db, serial, plain, env, env_refusing, alice, account, card, start, bank, card_input, payment,
}

card_found : resolve_card env card_input alice start ≡ (ok card, start)
unfolding resolve_card get_or_create own_or_create own_card Cards.get_by_hmac select_one select find
    hmac_pan strip_hyphens
card_found = refl

found_refusing : resolve_card env_refusing card_input alice start ≡ (ok card, start)
unfolding resolve_card get_or_create own_or_create own_card Cards.get_by_hmac select_one select find
    hmac_pan strip_hyphens
found_refusing = refl

debit_completes_example : create_transaction env (payment 200) alice start ≡ (
  ok (national_row env (payment 200) card TransactionStatus.completed),
  committed env
      (payment 200)
      alice
      start
      start
      card
      card_found
      refl
      tt
      (national_row env (payment 200) card TransactionStatus.completed)
      (debited account (pos 200) bank),
)
unfolding select numeric_fits insert_transaction exists_row
debit_completes_example =
    debit_completes env (payment 200) alice start start card card_found refl tt account refl refl
      refl refl refl refl (omega arith)

debit_rejected_example : create_transaction env (payment 900) alice start ≡ (
  err insufficient_funds,
  committed env
      (payment 900)
      alice
      start
      start
      card
      card_found
      refl
      tt
      (national_row env (payment 900) card TransactionStatus.failed)
      bank,
)
unfolding select insert_transaction exists_row numeric_fits
debit_rejected_example =
    debit_rejected env (payment 900) alice start start card card_found refl tt account refl refl
      refl refl refl (ground arith)

abbrev later : TransactionCreate
later = record (payment 900) { scheduled_for = some 2000 }

future_is_scheduled_example : create_transaction env later alice start ≡ (
  ok (scheduled_row env later alice start start card card_found refl tt),
  committed env later alice start start card card_found refl tt
      (scheduled_row env later alice start start card card_found refl tt)
      bank,
)
unfolding insert_transaction exists_row numeric_fits
future_is_scheduled_example =
    future_is_scheduled env later alice start start card card_found refl tt refl refl

abbrev abroad : TransactionCreate
abroad = record (payment 200) { type = TransactionType.international }

abbrev abroad_row : Env → Transaction
abroad_row e = new_transaction e (row_of abroad card TransactionStatus.pending)

international_is_queued_example : create_transaction env abroad alice start ≡ (
  ok (abroad_row env),
  record start {
    db = record bank { transactions = abroad_row env ∷ [] };
    sent = message_of (abroad_row env) ∷ [];
  },
)
unfolding insert_transaction exists_row numeric_fits
international_is_queued_example =
    international_is_queued env abroad alice start start card card_found refl tt refl refl refl refl

refused_message_rolls_back_example :
    create_transaction env_refusing abroad alice start ≡ (err sqs_error, start)
unfolding insert_transaction exists_row numeric_fits
refused_message_rolls_back_example =
    refused_message_rolls_back env_refusing abroad alice start start card found_refusing refl tt
      refl refl refl refl

create_transaction-Extends_example :
    Extends bank (create_transaction env (payment 900) alice start).1.db
create_transaction-Extends_example =
    create_transaction-Extends env (payment 900) alice start
      (λ d. ([], sym (append-nil d.transactions)))

resolve_card-OwnedBy_example : Ends (OwnedBy alice) (resolve_card env card_input alice start)
resolve_card-OwnedBy_example = resolve_card-OwnedBy env (λ user i d h. h) card_input alice start

-- The bank before alice's card is known, and an environment in which it is added meanwhile.
abbrev no_cards : Session
no_cards = on_db (record bank { cards = [] })

abbrev env_racing : Env
env_racing = record env { commits = λ d. bank }

race_fails_example :
    resolve_card env_racing card_input alice no_cards ≡ (err invalid_request, start)
unfolding select find exists_row hmac_pan strip_hyphens
race_fails_example =
    race_fails env_racing card_input alice no_cards refl account account card refl refl refl refl
      refl

-- Another session pays 300 of the 500 before the lock is had.
abbrev env_busy : Env
env_busy = record env { commits = λ d. debited account (pos 300) d }

concurrent_balance_lost_example : final_status_held env_busy account (pos 300) start ≡ (
  ok TransactionStatus.completed,
  record start {
    db = debited account (pos 300) (debited account (pos 300) bank);
    in_transaction = true;
  },
)
unfolding select numeric_fits update_rows ◌-ℤ◌
concurrent_balance_lost_example =
    concurrent_balance_lost env_busy account (record account { balance = pos 200 }) (pos 300) start
      refl refl (omega arith) (omega arith)
