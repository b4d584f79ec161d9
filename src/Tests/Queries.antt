-- ===== src/Tests/Queries.antt =====
-- Reading transactions, and archiving them.
use bank_transaction_system.Base.{ℕ, ◌≡◌, ◌+◌, refl, some, none, List}
use bank_transaction_system.Base.Rows.{find, exists_row}
use bank_transaction_system.Models.{Transaction, TransactionStatus}
use bank_transaction_system.Schemas.{TransactionListFilters}
use bank_transaction_system.Orm.{ok, Session}
use bank_transaction_system.Crud.Statements.{begun}
use bank_transaction_system.Crud.Transactions.{with_status, matches}
use bank_transaction_system.Services.Queries.{list_transactions_admin}
use bank_transaction_system.Services.Queries.Pages.{IsPage, list_transactions_admin-IsPage}
use bank_transaction_system.Services.Archive.{Server, select_copies, copy_transactions_to_history}
use bank_transaction_system.Services.Archive.Copies.{copy_is_idempotent}
use bank_transaction_system.Tests.Fixtures.{serial, due, with_due}

abbrev failed_only : TransactionListFilters
failed_only = record {
  user_id = none;
  account_id = none;
  status = some TransactionStatus.failed;
  type = none;
  date_from = none;
  date_to = none;
  limit = 50;
  offset = 0;
}

list_transactions_admin-IsPage_example :
    (rows : List Transaction) × (list_transactions_admin failed_only (with_due due)
      ≡ (ok rows, begun (with_due due)))
    × IsPage (matches (with_due due).db failed_only) 50 rows
list_transactions_admin-IsPage_example = list_transactions_admin-IsPage (with_due due) failed_only

abbrev server : ℕ → Server
server n = record {
  gen_random_uuid = λ t. t.id + n;
  now = n;
  year = λ at. 2026;
  month = λ at. 5;
  day = λ at. 8;
  hour = λ at. 12;
}

abbrev done : Session
done = with_due (with_status TransactionStatus.completed due)

copy_is_idempotent_example :
    copy_transactions_to_history (server 7) (copy_transactions_to_history (server 0) done).1
    ≡ (ok 0, (copy_transactions_to_history (server 0) done).1)
unfolding select_copies find exists_row
copy_is_idempotent_example = copy_is_idempotent (server 0) done refl (server 7) refl
