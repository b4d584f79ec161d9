-- ===== src/Services/Transactions/Stale.antt =====
-- `get_with_lock` (backend/app/crud/account.py) on a session that has loaded the account before, and
-- another session that commits before the row is locked. The requests of the other modules are
-- served without such a commit.
use bank_transaction_system.Base.{
  ℕ, ◌≡◌, true, false, Option, none, some, [], ◌∷◌, ◌==◌, ==_refl, ==_iff, if◌then◌else◌, arith,
}
use bank_transaction_system.Base.Rows.{select, select_first}
use bank_transaction_system.Base.Int.{ℤ, pos, leb_ℤ, ◌≤ℤ◌}
use bank_transaction_system.Models.{Account, TransactionStatus}
use bank_transaction_system.Orm.{
  ok, Action, Session, Env, Orm, pure, or_raise, ◌>>=◌, ◌>>◌, others_commit,
}
use bank_transaction_system.Crud.Statements.{numeric_fits}
use bank_transaction_system.Crud.Accounts
use bank_transaction_system.Crud.Accounts.{has_id}
use bank_transaction_system.Services.Failures.{origin_missing}
use bank_transaction_system.Services.Transactions.{settle_debit}
use bank_transaction_system.Services.Transactions.Postings.{debited, store_debit}

-- The identity map: a row of an instance that the session holds is answered by that instance, with
-- the columns as they were loaded (there is no `populate_existing`).
unfoldable pub instance_of : Option Account → Option Account → Option Account
instance_of none row = row
instance_of (some held) none = none
instance_of (some held) (some row) = if held.id == row.id then some held else some row

module _ ⦃orm : Orm⦄ where
  -- `get_with_lock` on a session that holds an instance.
  unfoldable pub get_with_lock_held : Option Account → ℕ → Action (Option Account)
  get_with_lock_held held account_id = do
    row ← Accounts.get_with_lock account_id
    pure (instance_of held row)

  -- The debit check of `_process_national` on a session that holds the account, which `joinedload`
  -- has loaded with the card or the transaction: another session commits before the lock is had.
  unfoldable pub final_status_held : Env → Account → ℤ → Action TransactionStatus
  final_status_held env held amount = do
    others_commit env
    found ← get_with_lock_held (some held) held.id
    account ← or_raise found origin_missing
    settle_debit account amount

  -- Where the session holds the row as it stands, the instance that `get_with_lock` gives is the
  -- row's.
  pub get_with_lock_held-current :
      (held : Account) (s : Session)
      → select (has_id held.id) s.db.accounts ≡ held ∷ []
      → get_with_lock_held (some held) held.id s ≡ Accounts.get_with_lock held.id s
  unfolding get_with_lock_held instance_of
  get_with_lock_held-current held s one = simp (Accounts.get_with_lock_lem, one, ==_refl held.id)

  -- Where a session holds an account whose loaded balance fits the column and covers a positive
  -- amount, and other sessions commit before the lock is had, after which the account still has
  -- one row: the debit is COMPLETED, and the balance that is stored is the loaded one less the
  -- amount, whatever balance the others have committed.
  pub concurrent_balance_lost :
      (env : Env) (held row : Account) (amount : ℤ) (s : Session)
      → select (has_id held.id) (env.commits s.db).accounts ≡ row ∷ []
      → numeric_fits held.balance ≡ true
      → ¬ (amount ≤ℤ pos 0)
      → amount ≤ℤ held.balance
      → final_status_held env held amount s ≡ (
        ok TransactionStatus.completed,
        record s { db = debited held amount (env.commits s.db); in_transaction = true },
      )
  unfolding final_status_held get_with_lock_held instance_of others_commit settle_debit
  concurrent_balance_lost env held row amount s one fits positive enough =
      let key : row.id ≡ held.id =
        (==_iff row.id held.id).0 (select_first (has_id held.id) (env.commits s.db).accounts one) in
      let covered : leb_ℤ amount held.balance ≡ true = ground arith in
      let above : leb_ℤ amount (pos 0) ≡ false = ground arith in
      simp (
        Accounts.get_with_lock_lem,
        one,
        key,
        ==_refl held.id,
        covered,
        Accounts.deduct_balance_lem,
        store_debit held amount (env.commits s.db) fits above covered,
      )
