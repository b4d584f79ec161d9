-- ===== src/Crud/Accounts.antt =====
-- backend/app/crud/account.py
use bank_transaction_system.Base.{ℕ, ◌≡◌, Bool, Option, [], ◌∷◌, ◌++◌, ◌==◌, if◌then◌else◌, not}
use bank_transaction_system.Base.Rows.{select, exists_row, update_rows}
use bank_transaction_system.Base.Int.{ℤ, pos, ◌+ℤ◌, ◌-ℤ◌}
use bank_transaction_system.Models.{User, Account, Table}
use bank_transaction_system.Orm.{
  ok, err, integrity, data_error, primary_key, foreign_key, accounts_user_id, Action, Session, Env,
  Statement, executed, Orm, execute, at_most_one,
}
use bank_transaction_system.Crud.Statements.{numeric_fits, begun, select_one, select_one_lem}

abbrev pub has_id : ℕ → Account → Bool
has_id i a = a.id == i

abbrev pub has_user : ℕ → Account → Bool
has_user u a = a.user_id == u

-- the columns' constraints: the key, the owner (one account each), and DECIMAL(19, 4)
unfoldable pub insert_account : Account → Statement Account
insert_account a d =
    if exists_row (has_id a.id) d.accounts
    then err (integrity primary_key)
    else if exists_row (has_user a.user_id) d.accounts
    then err (integrity accounts_user_id)
    else if not (exists_row (λ (u : User). u.id == a.user_id) d.users)
    then err (integrity foreign_key)
    else ok (a, record d { accounts = d.accounts ++ (a ∷ []) })

abbrev pub with_balance : ℤ → Account → Account
with_balance v a = record a { balance = v }

unfoldable pub store_balance : ℕ → ℤ → Statement (Unit {0})
store_balance i v d =
    if numeric_fits v
    then ok (tt, record d { accounts = update_rows (has_id i) (with_balance v) d.accounts })
    else err data_error

-- The constructor of `create`: a zero balance.
abbrev pub new_account : Env → ℕ → Account
new_account env user_id = record {
  id = env.uuid4 Table.accounts;
  user_id = user_id;
  balance = pos 0;
  created_at = env.now;
}

module _ ⦃orm : Orm⦄ where
  unfoldable pub get : ℕ → Action (Option Account)
  get account_id = select_one (λ d. select (has_id account_id) d.accounts)

  unfoldable pub get_by_user : ℕ → Action (Option Account)
  get_by_user user_id = select_one (λ d. select (has_user user_id) d.accounts)

  -- `SELECT ... FOR UPDATE`, where no other session commits between the session's load of the
  -- account and the lock: the identity map's instance is then the row as it stands.
  -- Services.Transactions.Stale has `get_with_lock` on a session that holds an older instance.
  unfoldable pub get_with_lock : ℕ → Action (Option Account)
  get_with_lock account_id = select_one (λ d. select (has_id account_id) d.accounts)

  -- The attribute is written to its row when the session flushes.
  unfoldable pub deduct_balance : Account → ℤ → Action (Unit {0})
  deduct_balance account amount = execute (store_balance account.id (account.balance -ℤ amount))

  unfoldable pub add_balance : Account → ℤ → Action (Unit {0})
  add_balance account amount = execute (store_balance account.id (account.balance +ℤ amount))

  unfoldable pub create : Env → ℕ → Action Account
  create env user_id = execute (insert_account (new_account env user_id))

  pub get_lem :
      (i : ℕ) (s : Session) → get i s ≡ (at_most_one (select (has_id i) s.db.accounts), begun s)
  unfolding get
  get_lem i s = select_one_lem (λ d. select (has_id i) d.accounts) s

  pub get_by_user_lem :
      (u : ℕ) (s : Session)
      → get_by_user u s ≡ (at_most_one (select (has_user u) s.db.accounts), begun s)
  unfolding get_by_user
  get_by_user_lem u s = select_one_lem (λ d. select (has_user u) d.accounts) s

  pub get_with_lock_lem :
      (i : ℕ) (s : Session)
      → get_with_lock i s ≡ (at_most_one (select (has_id i) s.db.accounts), begun s)
  unfolding get_with_lock
  get_with_lock_lem i s = select_one_lem (λ d. select (has_id i) d.accounts) s

  pub deduct_balance_lem :
      (a : Account) (x : ℤ) (s : Session)
      → deduct_balance a x s ≡ executed s (store_balance a.id (a.balance -ℤ x) s.db)
  unfolding deduct_balance
  deduct_balance_lem a x s = orm.execute_lem Unit (store_balance a.id (a.balance -ℤ x)) s

  pub add_balance_lem :
      (a : Account) (x : ℤ) (s : Session)
      → add_balance a x s ≡ executed s (store_balance a.id (a.balance +ℤ x) s.db)
  unfolding add_balance
  add_balance_lem a x s = orm.execute_lem Unit (store_balance a.id (a.balance +ℤ x)) s

  pub create_lem :
      (env : Env) (u : ℕ) (s : Session)
      → create env u s ≡ executed s (insert_account (new_account env u) s.db)
  unfolding create
  create_lem env u s = orm.execute_lem Account (insert_account (new_account env u)) s
