-- ===== src/Api/AdminBackoffice.antt =====
-- backend/app/api/api_v1/endpoints/admin_backoffice.py, with the endpoints' dependencies.
pub mod Filters
use bank_transaction_system.Base.{
  ℕ, String, Bool, Option, none, some, List, map, str_eq, if◌then◌else◌,
}
use bank_transaction_system.Models.{TransactionStatus, TransactionType}
use bank_transaction_system.Schemas.{TransactionListFilters}
use bank_transaction_system.Schemas.Responses.{TransactionRead, read_transaction}
use bank_transaction_system.Platform.{Platform}
use bank_transaction_system.Orm.{
  Result, ok, err, value_error, Action, Env, Orm, pure, lift, ◌>>=◌, ◌>>◌,
}
use bank_transaction_system.Services.Queries
use bank_transaction_system.Deps.{admin_dep}

-- `TransactionStatus(text)` and `TransactionType(text)`
unfoldable pub status_of_text : String → Result TransactionStatus
status_of_text text =
    if str_eq text "pending"
    then ok TransactionStatus.pending
    else if str_eq text "completed"
    then ok TransactionStatus.completed
    else if str_eq text "failed"
    then ok TransactionStatus.failed
    else if str_eq text "scheduled"
    then ok TransactionStatus.scheduled
    else if str_eq text "processing"
    then ok TransactionStatus.processing
    else err value_error

unfoldable pub type_of_text : String → Result TransactionType
type_of_text text =
    if str_eq text "national"
    then ok TransactionType.national
    else if str_eq text "international"
    then ok TransactionType.international
    else err value_error

abbrev pub map_result : {A B : Type 0} → (A → B) → Result A → Result B
map_result f (ok a) = ok (f a)
map_result f (err e) = err e

-- `TransactionStatus(tx_status) if tx_status else None`: an empty text is no filter.
unfoldable pub optional_enum :
    {A : Type 0} → (String → Result A) → Option String → Result (Option A)
optional_enum parse none = ok none
optional_enum parse (some text) = if str_eq text "" then ok none else map_result some (parse text)

-- The query of `list_transactions`, whose `status` and `type` are texts.
pub record ListQuery : Type 0 where
  pub user_id : Option ℕ
  pub account_id : Option ℕ
  pub tx_status : Option String
  pub tx_type : Option String
  pub date_from : Option ℕ
  pub date_to : Option ℕ
  pub limit : ℕ
  pub offset : ℕ

abbrev pub filters_of :
    ListQuery → Option TransactionStatus → Option TransactionType → TransactionListFilters
filters_of q status type = record {
  user_id = q.user_id;
  account_id = q.account_id;
  status = status;
  type = type;
  date_from = q.date_from;
  date_to = q.date_to;
  limit = q.limit;
  offset = q.offset;
}

module _ ⦃orm : Orm⦄ ⦃p : Platform⦄ where
  unfoldable pub list_transactions : Env → String → ListQuery → Action (List TransactionRead)
  list_transactions env token q = do
    admin_dep env token
    status ← lift (optional_enum status_of_text q.tx_status)
    type ← lift (optional_enum type_of_text q.tx_type)
    transactions ← Queries.list_transactions_admin (filters_of q status type)
    pure (map read_transaction transactions)

  unfoldable pub get_transaction_admin : Env → String → ℕ → Action TransactionRead
  get_transaction_admin env token transaction_id = do
    admin_dep env token
    transaction ← Queries.get_transaction_admin transaction_id
    pure (read_transaction transaction)
