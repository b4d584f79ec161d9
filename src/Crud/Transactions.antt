-- ===== src/Crud/Transactions.antt =====
-- backend/app/crud/transaction.py
use bank_transaction_system.Base.{
  ℕ, String, ◌≡◌, Bool, true, false, Option, none, some, List, [], ◌∷◌, ◌++◌, ◌==◌, if◌then◌else◌,
  not, ◌&&◌, ltb, leb, map,
}
use bank_transaction_system.Base.Rows.{select, find, exists_row, update_rows, take, drop}
use bank_transaction_system.Base.Int.{ℤ, pos, leb_ℤ}
use bank_transaction_system.Models.{
  Account, Transaction, TransactionType, TransactionMethod, TransactionStatus, status_eq, type_eq,
  Db, Table,
}
use bank_transaction_system.Schemas.{TransactionListFilters}
use bank_transaction_system.Orm.{
  ok, err, integrity, data_error, primary_key, foreign_key, check, Action, Session, Env, Statement,
  executed, Orm, execute, at_most_one,
}
use bank_transaction_system.Crud.Accounts
use bank_transaction_system.Crud.Cards
use bank_transaction_system.Crud.Statements.{
  numeric_fits, begun, select_one, select_one_lem, select_all, select_all_lem,
}

abbrev pub has_id : ℕ → Transaction → Bool
has_id i t = t.id == i

-- A transaction with `transaction.account`, which `joinedload` fetches beside it.
abbrev pub LoadedTransaction : Type 0
LoadedTransaction = Transaction × Option Account

abbrev pub joined : Db → Transaction → LoadedTransaction
joined d t = (t, find (Accounts.has_id t.origin_account) d.accounts)

-- a foreign key that may be NULL
abbrev pub refers : List Transaction → Option ℕ → Bool
refers rows none = true
refers rows (some i) = exists_row (has_id i) rows

-- the columns' constraints: the key, the references, `amount > 0`, and DECIMAL(19, 4)
unfoldable pub insert_transaction : Transaction → Statement Transaction
insert_transaction t d =
    if exists_row (has_id t.id) d.transactions
    then err (integrity primary_key)
    else if not (exists_row (Cards.has_id t.source_card) d.cards)
    then err (integrity foreign_key)
    else if not (exists_row (Accounts.has_id t.origin_account) d.accounts)
    then err (integrity foreign_key)
    else if not (refers d.transactions t.reversal_of)
    then err (integrity foreign_key)
    else if leb_ℤ t.amount (pos 0)
    then err (integrity check)
    else if not (numeric_fits t.amount)
    then err data_error
    else ok (t, record d { transactions = d.transactions ++ (t ∷ []) })

abbrev pub in_status : ℕ → TransactionStatus → Transaction → Bool
in_status i st t = t.id == i && status_eq t.status st

abbrev pub with_status : TransactionStatus → Transaction → Transaction
with_status st t = record t { status = st }

-- the UPDATE, and whether its row count is positive
unfoldable pub set_status : ℕ → TransactionStatus → TransactionStatus → Statement Bool
set_status i new expected d = ok (
  exists_row (in_status i expected) d.transactions,
  record d { transactions = update_rows (in_status i expected) (with_status new) d.transactions },
)

-- The keyword arguments of `create`.
pub record NewTransaction : Type 0 where
  pub source_card : ℕ
  pub origin_account : ℕ
  pub destination_account : String
  pub amount : ℤ
  pub transaction_type : TransactionType
  pub method : TransactionMethod
  pub status : TransactionStatus
  pub scheduled_for : Option ℕ
  pub reversal_of : Option ℕ

abbrev pub new_transaction : Env → NewTransaction → Transaction
new_transaction env n = record {
  id = env.uuid4 Table.transactions;
  source_card = n.source_card;
  origin_account = n.origin_account;
  destination_account = n.destination_account;
  amount = n.amount;
  type = n.transaction_type;
  method = n.method;
  status = n.status;
  scheduled_for = n.scheduled_for;
  reversal_of = n.reversal_of;
  created_at = env.now;
}

-- `scheduled_for <= now()`, which is not true of NULL
abbrev pub is_reached : ℕ → Option ℕ → Bool
is_reached now none = false
is_reached now (some at) = leb at now

abbrev pub is_due : ℕ → Transaction → Bool
is_due now t = status_eq t.status TransactionStatus.scheduled && is_reached now t.scheduled_for

-- ORDER BY created_at DESC; the order of rows with one timestamp is the table's
unfoldable pub insert_by_date : Transaction → List Transaction → List Transaction
insert_by_date t [] = t ∷ []
insert_by_date t (u ∷ rows) =
    let rest = insert_by_date t rows in
    if ltb t.created_at u.created_at then u ∷ rest else t ∷ u ∷ rows

-- `ORDER BY created_at DESC`. PostgreSQL leaves the order of rows of one time open, from one query
-- to the next; here they stay as in the table.
unfoldable pub newest_first : List Transaction → List Transaction
unfolding insert_by_date
newest_first [] = []
newest_first (t ∷ rows) = insert_by_date t (newest_first rows)

-- LIMIT and OFFSET
abbrev pub page : ℕ → ℕ → List Transaction → List Transaction
page limit offset rows = take limit (drop offset rows)

-- A filter of `list_filtered` that is not set admits every row.
abbrev pub if_set : {A : Type 0} → Option A → (A → Bool) → Bool
if_set none p = true
if_set (some a) p = p a

-- `account_subq`: the account of a user, a scalar subquery
abbrev pub owned_by : Db → ℕ → Transaction → Bool
owned_by d user_id t = elim (find (Accounts.has_user user_id) d.accounts) [
  | none ↦ false
  | some a ↦ t.origin_account == a.id
]

unfoldable pub matches : Db → TransactionListFilters → Transaction → Bool
matches d f t =
    if_set f.user_id (λ u. owned_by d u t)
    && if_set f.account_id (λ a. t.origin_account == a)
    && if_set f.status (λ st. status_eq t.status st)
    && if_set f.type (λ ty. type_eq t.type ty)
    && if_set f.date_from (λ at. leb at t.created_at)
    && if_set f.date_to (λ at. leb t.created_at at)

module _ ⦃orm : Orm⦄ where
  unfoldable pub get : ℕ → Action (Option LoadedTransaction)
  get transaction_id =
      select_one (λ d. map (joined d) (select (has_id transaction_id) d.transactions))

  unfoldable pub create : Env → NewTransaction → Action Transaction
  create env n = execute (insert_transaction (new_transaction env n))

  unfoldable pub update_status : ℕ → TransactionStatus → TransactionStatus → Action Bool
  update_status transaction_id new_status expected_current_status =
      execute (set_status transaction_id new_status expected_current_status)

  unfoldable pub get_due_ids : ℕ → Action (List ℕ)
  get_due_ids now =
      select_all (λ d. map (λ (t : Transaction). t.id) (select (is_due now) d.transactions))

  unfoldable pub list_by_account : ℕ → ℕ → ℕ → Action (List Transaction)
  list_by_account account_id limit offset = select_all (λ d.
      page limit offset
        (newest_first (select (λ t. t.origin_account == account_id) d.transactions)))

  unfoldable pub list_filtered : TransactionListFilters → Action (List Transaction)
  list_filtered f =
      select_all (λ d. page f.limit f.offset (newest_first (select (matches d f) d.transactions)))

  pub get_lem :
      (i : ℕ) (s : Session)
      → get i s ≡ (at_most_one (map (joined s.db) (select (has_id i) s.db.transactions)), begun s)
  unfolding get
  get_lem i s = select_one_lem (λ d. map (joined d) (select (has_id i) d.transactions)) s

  pub create_lem :
      (env : Env) (n : NewTransaction) (s : Session)
      → create env n s ≡ executed s (insert_transaction (new_transaction env n) s.db)
  unfolding create
  create_lem env n s = orm.execute_lem Transaction (insert_transaction (new_transaction env n)) s

  pub update_status_lem :
      (i : ℕ) (new expected : TransactionStatus) (s : Session)
      → update_status i new expected s ≡ executed s (set_status i new expected s.db)
  unfolding update_status
  update_status_lem i new expected s = orm.execute_lem Bool (set_status i new expected) s

  pub get_due_ids_lem :
      (now : ℕ) (s : Session)
      → get_due_ids now s
        ≡ (ok (map (λ (t : Transaction). t.id) (select (is_due now) s.db.transactions)), begun s)
  unfolding get_due_ids
  get_due_ids_lem now s =
      select_all_lem (λ d. map (λ (t : Transaction). t.id) (select (is_due now) d.transactions)) s
