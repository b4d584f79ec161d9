-- ===== src/Tests/Runs.antt =====
-- Runs of the whole program, and the ledgers of a payment.
use bank_transaction_system.Base.{◌≡◌, refl, some, none, [], ◌∷◌, arith, Bool, true, not}
use bank_transaction_system.Base.Int.{pos, ◌≤ℤ◌}
use bank_transaction_system.Models.{Db, empty_db}
use bank_transaction_system.Schemas.{UserCreate}
use bank_transaction_system.Services.Transactions.{
  create_transaction, process_scheduled_transaction,
}
use bank_transaction_system.Services.Transactions.Balances.{NonNegative}
use bank_transaction_system.Services.Transactions.Lifecycle.{Evolves}
use bank_transaction_system.Services.Transactions.Ledger.{ledger}
use bank_transaction_system.Services.Transactions.Ledger.Created.{create_transaction-ledger}
use bank_transaction_system.Services.Transactions.Ledger.Claimed.{process_scheduled-ledger}
use bank_transaction_system.Integrity.{WellFormed}
use bank_transaction_system.System.Requests.{Request, is_deposit, Steps, SerialSteps, fresh, serve}
use bank_transaction_system.System.Invariants.{run-WellFormed, run-NonNegative, run-Evolves}
use bank_transaction_system.System.Funds.{run-ledger, run-Conserves}
use bank_transaction_system.System.Trail.{KeepsTrail, run-KeepsTrail}
use bank_transaction_system.Tests.Fixtures.{
  serial, plain, env, alice, due, bank, start, with_due, payment,
}

-- Nothing is stored: every key, reference and check holds.
empty-WellFormed : WellFormed empty_db
empty-WellFormed = record {
  users = record { ids = tt; national_ids = tt; emails = tt; phones = tt };
  accounts = record { ids = tt; owners = tt; users_known = tt; fits = tt };
  cards = record { ids = tt; numbers = tt; accounts_known = tt; months = tt; years = tt };
  transactions = record {
    ids = tt;
    cards_known = tt;
    accounts_known = tt;
    originals_known = tt;
    positive = tt;
    fits = tt;
  };
  sessions = record { ids = tt; owners = tt; users_known = tt };
  logs = record { log_ids = tt; log_users = tt; event_ids = tt; event_users = tt };
  archive = record { ids = tt; copies = tt };
}

abbrev dave : UserCreate
dave = record {
  name = "Dave";
  email = "dave@bank";
  password = "secret3";
  national_id = 44;
  phone = 444;
  registered_ip = none;
}

-- Dave registers, and logs in.
abbrev registered : Db
registered = (serve env (Request.customer_register dave) (fresh empty_db)).db

abbrev dave_logs_in : Request
dave_logs_in = Request.customer_login "dave@bank" "secret3"

abbrev any_request : Request → Bool
any_request r = true

two_requests : Steps any_request empty_db (serve env dave_logs_in (fresh registered)).db
two_requests =
    Steps.request env dave_logs_in refl
      (Steps.request env (Request.customer_register dave) refl Steps.no_request
        (λ e. Steps.no_request))
      (λ e. Steps.no_request)

run-WellFormed_example : WellFormed (serve env dave_logs_in (fresh registered)).db
run-WellFormed_example =
    run-WellFormed any_request empty_db (serve env dave_logs_in (fresh registered)).db two_requests
      empty-WellFormed

-- Alice's session.
abbrev alice_in : Db
alice_in = record bank {
  sessions =
      record {
        id = 40;
        user_id = 1;
        token_hash = "token";
        ip_address = none;
        created_at = 1;
        expires_at = 1500;
      }
      ∷ [];
}

abbrev alice_pays : Request
alice_pays = Request.create_transaction "token" (payment 200)

alice_paid : Steps any_request alice_in (serve env alice_pays (fresh alice_in)).db
alice_paid = Steps.request env alice_pays refl Steps.no_request (λ e. Steps.no_request)

bank-Covered : NonNegative alice_in
bank-Covered = (omega arith, tt)

run-NonNegative_example : NonNegative (serve env alice_pays (fresh alice_in)).db
run-NonNegative_example =
    run-NonNegative any_request alice_in (serve env alice_pays (fresh alice_in)).db alice_paid
      bank-Covered

abbrev alice_deposits : Request
alice_deposits = Request.add_balance "token" (pos 40)

alice_deposited : SerialSteps any_request alice_in (serve env alice_deposits (fresh alice_in)).db
alice_deposited = SerialSteps.served env alice_deposits refl SerialSteps.nothing_served (λ e. refl)

run-ledger_example : ledger 10 alice_in ≤ℤ ledger 10 (serve env alice_deposits (fresh alice_in)).db
run-ledger_example =
    run-ledger 10 any_request alice_in (serve env alice_deposits (fresh alice_in)).db
      alice_deposited

alice_paid_only :
    SerialSteps (λ r. not (is_deposit r)) alice_in (serve env alice_pays (fresh alice_in)).db
alice_paid_only = SerialSteps.served env alice_pays refl SerialSteps.nothing_served (λ e. refl)

run-Conserves_example : ledger 10 (serve env alice_pays (fresh alice_in)).db ≡ ledger 10 alice_in
run-Conserves_example =
    run-Conserves 10 alice_in (serve env alice_pays (fresh alice_in)).db alice_paid_only

run-KeepsTrail_example : KeepsTrail alice_in (serve env alice_pays (fresh alice_in)).db
run-KeepsTrail_example =
    run-KeepsTrail any_request alice_in (serve env alice_pays (fresh alice_in)).db alice_paid

abbrev due_bank : Db
due_bank = (with_due due).db

abbrev due_runs : Request
due_runs = Request.process_scheduled (some "internal") 30

due_ran : Steps any_request due_bank (serve env due_runs (fresh due_bank)).db
due_ran = Steps.request env due_runs refl Steps.no_request (λ e. Steps.no_request)

run-Evolves_example : Evolves (due ∷ []) (serve env due_runs (fresh due_bank)).db.transactions
run-Evolves_example =
    run-Evolves any_request due_bank (serve env due_runs (fresh due_bank)).db due_ran

create_transaction-ledger_example :
    ledger 10 (create_transaction env (payment 200) alice start).1.db ≡ ledger 10 bank
create_transaction-ledger_example =
    create_transaction-ledger 10 env (payment 200) alice start (λ d. refl)

process_scheduled-ledger_example :
    ledger 10 (process_scheduled_transaction env 30 (with_due due)).1.db
    ≡ ledger 10 (with_due due).db
process_scheduled-ledger_example = process_scheduled-ledger 10 env 30 (with_due due)
