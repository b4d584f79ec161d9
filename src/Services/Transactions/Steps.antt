-- ===== src/Services/Transactions/Steps.antt =====
-- The steps of backend/app/services/transaction_service.py inside a transaction, run on a session
-- whose rows are known: one equation for each branch.
use bank_transaction_system.Base.{ℕ, ◌≡◌, true, false, none, [], ◌∷◌}
use bank_transaction_system.Base.Rows.{select}
use bank_transaction_system.Base.Int.{ℤ, leb_ℤ, ◌-ℤ◌}
use bank_transaction_system.Models.{Account, TransactionMethod, TransactionStatus, Db}
use bank_transaction_system.Orm.{ok, Session, Env, Orm}
use bank_transaction_system.Crud.Statements.{begun}
use bank_transaction_system.Crud.Accounts
use bank_transaction_system.Crud.Accounts.{store_balance, has_id}
use bank_transaction_system.Crud.Transactions as Rows
use bank_transaction_system.Crud.Transactions.{insert_transaction, NewTransaction, new_transaction}
use bank_transaction_system.Services.Transactions.{
  settle_debit, final_status, persist, process_national,
}

module _ ⦃orm : Orm⦄ where
  pub final_status_enough :
      (origin : ℕ) (x : ℤ) (a : Account) (d : Db) (s : Session)
      → select (has_id origin) s.db.accounts ≡ a ∷ []
      → leb_ℤ x a.balance ≡ true
      → store_balance a.id (a.balance -ℤ x) s.db ≡ ok (tt, d)
      → final_status TransactionMethod.debit origin x s
        ≡ (ok TransactionStatus.completed, record s { db = d; in_transaction = true })
  unfolding final_status settle_debit
  final_status_enough origin x a d s found enough stored =
      simp (Accounts.get_with_lock_lem, found, enough, Accounts.deduct_balance_lem, stored)

  pub final_status_short :
      (origin : ℕ) (x : ℤ) (a : Account) (s : Session)
      → select (has_id origin) s.db.accounts ≡ a ∷ []
      → leb_ℤ x a.balance ≡ false
      → final_status TransactionMethod.debit origin x s ≡ (ok TransactionStatus.failed, begun s)
  unfolding final_status settle_debit
  final_status_short origin x a s found short = simp (Accounts.get_with_lock_lem, found, short)

  pub process_new_lem :
      (env : Env) (n : NewTransaction) (st : TransactionStatus) (d : Db) (s t : Session)
      → final_status n.method n.origin_account n.amount s ≡ (ok st, t)
      → insert_transaction (new_transaction env (record n { status = st })) t.db
        ≡ ok (new_transaction env (record n { status = st }), d)
      → process_national env n none s ≡ (
        ok (new_transaction env (record n { status = st })),
        record t { db = d; in_transaction = true },
      )
  unfolding process_national persist
  process_new_lem env n st d s t final inserted =
      rw (final) (rw (Rows.create_lem env (record n { status = st }) t) (rw inserted))
