-- ===== src/Api/Accounts/Balance.antt =====
-- What backend/app/api/api_v1/endpoints/accounts.py does to the accounts.
use bank_transaction_system.Base.{◌≡◌, refl, true, false, [], ◌∷◌, ==_refl}
use bank_transaction_system.Base.Rows.{select, update_rows, select-update_rows}
use bank_transaction_system.Base.Int.{ℤ, ◌+ℤ◌}
use bank_transaction_system.Models.{User, Account, Db}
use bank_transaction_system.Orm.{ok, err, data_error, Session, Orm}
use bank_transaction_system.Crud.Statements.{numeric_fits, select_one_lem}
use bank_transaction_system.Crud.Accounts as Rows
use bank_transaction_system.Crud.Accounts.{
  has_id, has_user, with_balance, store_balance, insert_account, new_account,
}
use bank_transaction_system.Api.Accounts.{credit, refresh, add_balance, account_not_found}

-- The database with an account's balance raised.
abbrev pub credited : Account → ℤ → Db → Db
credited a x d = record d {
  accounts = update_rows (has_id a.id) (with_balance (a.balance +ℤ x)) d.accounts;
}

module _ ⦃orm : Orm⦄ (amount : ℤ) (user : User) (s : Session)
    (idle : s.in_transaction ≡ false) where
  -- On a session without a transaction, a user without an account is answered 404, and nothing
  -- changes.
  pub add_balance_missing :
      select (has_user user.id) s.db.accounts ≡ []
      → add_balance amount user s ≡ (err account_not_found, s)
  unfolding add_balance credit
  add_balance_missing nothing =
      rw (orm.begin_idle Account (credit amount user) s idle)
        (simp (Rows.get_by_user_lem, nothing) (rw (← idle)))

  module _ (a : Account) (owner : select (has_user user.id) s.db.accounts ≡ a ∷ [])
      (only : select (has_id a.id) s.db.accounts ≡ a ∷ []) where
    -- On a session without a transaction, where the user has one account, alone with its
    -- identifier, and the raised balance fits the column: that account, and no other, is raised by
    -- the amount; the answer is the account as it then is.
    pub add_balance_credits :
        numeric_fits (a.balance +ℤ amount) ≡ true
        → add_balance amount user s ≡ (
          ok (with_balance (a.balance +ℤ amount) a),
          record s { db = credited a amount s.db; in_transaction = true },
        )
    unfolding add_balance credit refresh store_balance update_rows
    add_balance_credits fits = rw (orm.begin_idle Account (credit amount user) s idle) (
        simp (
          Rows.get_by_user_lem,
          owner,
          Rows.get_with_lock_lem,
          only,
          Rows.add_balance_lem,
          fits,
          select_one_lem,
          select-update_rows (has_id a.id) (has_id a.id) (with_balance (a.balance +ℤ amount))
              s.db.accounts (λ x. refl),
          ==_refl a.id,
        ))

    -- On a session without a transaction, where the user has one account, alone with its
    -- identifier: a raised balance that DECIMAL(19, 4) cannot hold is refused, and nothing
    -- changes.
    pub add_balance_overflow :
        numeric_fits (a.balance +ℤ amount) ≡ false → add_balance amount user s ≡ (err data_error, s)
    unfolding add_balance credit store_balance
    add_balance_overflow big = rw (orm.begin_idle Account (credit amount user) s idle) (
        simp (Rows.get_by_user_lem, owner, Rows.get_with_lock_lem, only, Rows.add_balance_lem, big)
          (rw (← idle)))
