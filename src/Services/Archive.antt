-- ===== src/Services/Archive.antt =====
-- backend/app/services/archive_service.py
pub mod Copies
use bank_transaction_system.Base.{
  ℕ, String, Bool, true, false, Option, none, some, List, [], ◌∷◌, ◌++◌, ◌==◌, ◌&&◌, ◌||◌, not,
  if◌then◌else◌,
}
use bank_transaction_system.Base.Rows.{exists_row, find, length}
use bank_transaction_system.Models.{
  Account, Transaction, TransactionType, TransactionMethod, TransactionStatus, TransactionHistory,
  status_eq, Db,
}
use bank_transaction_system.Orm.{
  ok, err, integrity, primary_key, Action, Statement, Orm, execute, begin,
}
use bank_transaction_system.Crud.Accounts

-- What the statement takes from the database: `gen_random_uuid()` for each row, `now()`, and the
-- parts of a timestamp.
pub record Server : Type 0 where
  pub gen_random_uuid : Transaction → ℕ
  pub now : ℕ
  pub year : ℕ → ℕ
  pub month : ℕ → ℕ
  pub day : ℕ → ℕ
  pub hour : ℕ → ℕ

-- `cast(..., String)` of the enums
abbrev pub type_text : TransactionType → String
type_text TransactionType.national = "national"
type_text TransactionType.international = "international"

abbrev pub method_text : TransactionMethod → String
method_text TransactionMethod.debit = "debit"
method_text TransactionMethod.credit = "credit"

abbrev pub status_text : TransactionStatus → String
status_text TransactionStatus.pending = "pending"
status_text TransactionStatus.completed = "completed"
status_text TransactionStatus.failed = "failed"
status_text TransactionStatus.scheduled = "scheduled"
status_text TransactionStatus.processing = "processing"

abbrev pub copies_of : ℕ → TransactionHistory → Bool
copies_of i h = h.transaction_id == i

-- The `where`: a final status, and no copy in the history.
abbrev pub is_eligible : List TransactionHistory → Transaction → Bool
is_eligible history t =
    (status_eq t.status TransactionStatus.completed || status_eq t.status TransactionStatus.failed)
    && not (exists_row (copies_of t.id) history)

abbrev pub copy_of : Server → Transaction → Account → TransactionHistory
copy_of server t a = record {
  id = server.gen_random_uuid t;
  transaction_id = t.id;
  user_id = a.user_id;
  origin_account_id = t.origin_account;
  destination_account = t.destination_account;
  amount = t.amount;
  type = type_text t.type;
  method = method_text t.method;
  status = status_text t.status;
  year = server.year t.created_at;
  month = server.month t.created_at;
  day = server.day t.created_at;
  hour = server.hour t.created_at;
  created_at = t.created_at;
  archived_at = server.now;
}

-- The row of a transaction, joined with its account.
abbrev pub joined_copy : Server → Transaction → Option Account → List TransactionHistory
joined_copy server t none = []
joined_copy server t (some a) = copy_of server t a ∷ []

-- `select_stmt`
unfoldable pub select_copies :
    Server → List Account → List TransactionHistory → List Transaction → List TransactionHistory
select_copies server accounts history [] = []
select_copies server accounts history (t ∷ rows) =
    let rest = select_copies server accounts history rows in
    if is_eligible history t
    then joined_copy server t (find (Accounts.has_id t.origin_account) accounts) ++ rest
    else rest

-- No two rows have one key.
abbrev pub keys_are_new : List TransactionHistory → List TransactionHistory → Bool
keys_are_new history [] = true
keys_are_new history (h ∷ rows) =
    not (exists_row (λ (x : TransactionHistory). x.id == h.id) history)
    && keys_are_new (h ∷ history) rows

-- `archive_stmt`, INSERT ... SELECT, and its row count
unfoldable pub archive : Server → Statement ℕ
archive server d =
    let rows = select_copies server d.accounts d.transaction_history d.transactions in
    if keys_are_new d.transaction_history rows
    then ok (length rows, record d { transaction_history = d.transaction_history ++ rows })
    else err (integrity primary_key)

unfoldable pub copy_transactions_to_history : ⦃orm : Orm⦄ → Server → Action ℕ
copy_transactions_to_history server = begin (execute (archive server))
