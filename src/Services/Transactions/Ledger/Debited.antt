-- ===== src/Services/Transactions/Ledger/Debited.antt =====
-- The debit check of backend/app/services/transaction_service.py takes from an account what the final
-- status says.
use bank_transaction_system.Base.{
  ℕ, ◌≡◌, refl, ◌∙◌, ◌==◌, ==_iff, List, [], ◌∷◌, if◌then◌else◌, Bool-cases, inl, inr, arith,
}
use bank_transaction_system.Base.Rows.{select, select_first}
use bank_transaction_system.Base.Int.{ℤ, pos, leb_ℤ, ◌-ℤ◌, int_laws}
use bank_transaction_system.Models.{Account, TransactionMethod, TransactionStatus, Db}
use bank_transaction_system.Orm.{
  Result, ok, err, Session, executed, continue, pure, or_raise, at_most_one, ◌>>=◌, Orm,
}
use bank_transaction_system.Orm.Ends.{Ends}
use bank_transaction_system.Crud.Statements.{begun}
use bank_transaction_system.Crud.Accounts
use bank_transaction_system.Crud.Accounts.{store_balance}
use bank_transaction_system.Services.Failures.{origin_missing}
use bank_transaction_system.Services.Transactions.{settle_debit, final_status}
use bank_transaction_system.Services.Transactions.Ledger.{due}
use bank_transaction_system.Services.Transactions.Ledger.Sums.{store_balance-ledger}
use bank_transaction_system.Services.Transactions.Ledger.Spends.{Took, Spends}

module _ (i : ℕ) ⦃orm : Orm⦄ where
  due-credit :
      (origin : ℕ) (x : ℤ) (st : TransactionStatus)
      → due i TransactionMethod.credit origin x st ≡ pos 0
  due-credit origin x st = ground arith

  due-failed :
      (m : TransactionMethod) (origin : ℕ) (x : ℤ)
      → due i m origin x TransactionStatus.failed ≡ pos 0
  due-failed m origin x = ground arith

  due-debit :
      (origin : ℕ) (x : ℤ)
      → due i TransactionMethod.debit origin x TransactionStatus.completed
        ≡ (if origin == i then x else pos 0)
  due-debit origin x = ground arith

  Took-zero : (x : ℤ) (d : Db) → x ≡ pos 0 → Took i x d d
  Took-zero x d e = grind (int_laws, e)

  deducted :
      (a : Account) (x : ℤ) (s : Session) (r : Result (Unit {0} × Db))
      → store_balance a.id (a.balance -ℤ x) s.db ≡ r
      → select (Accounts.has_id a.id) s.db.accounts ≡ a ∷ []
      → Ends
          (λ st d'. Took i (due i TransactionMethod.debit a.id x st) s.db d')
          (continue (executed s r) (λ u. pure TransactionStatus.completed))
  deducted a x s (ok (u, d')) e one =
      rw (due-debit a.id x) (store_balance-ledger a x u s.db d' one e i)
  deducted a x s (err c) e one = tt

  settle_debit-Took :
      (a : Account) (x : ℤ) (s : Session)
      → select (Accounts.has_id a.id) s.db.accounts ≡ a ∷ []
      → Ends
          (λ st d'. Took i (due i TransactionMethod.debit a.id x st) s.db d')
          (settle_debit a x s)
  unfolding settle_debit
  settle_debit-Took a x s one = elim (Bool-cases (leb_ℤ x a.balance)) [
    | inl enough ↦ rw enough (
        rw (Accounts.deduct_balance_lem a x s)
          (deducted a x s (store_balance a.id (a.balance -ℤ x) s.db) refl one))
    | inr short ↦ rw short (Took-zero _ s.db (due-failed TransactionMethod.debit a.id x))
  ]

  found-Took :
      (origin : ℕ) (x : ℤ) (s : Session) (rows : List Account)
      → select (Accounts.has_id origin) s.db.accounts ≡ rows
      → Ends
          (λ st d'. Took i (due i TransactionMethod.debit origin x st) s.db d')
          (continue
            (at_most_one rows, s)
            (λ found. or_raise found origin_missing >>= λ account. settle_debit account x))
  found-Took origin x s [] e = tt
  found-Took origin x s (a ∷ []) e =
      let key : a.id ≡ origin =
        (==_iff a.id origin).0 (select_first (Accounts.has_id origin) s.db.accounts e) in
      coe 0 1
        (k.
          Ends (λ st d'. Took i (due i TransactionMethod.debit (key k) x st) s.db d')
            (settle_debit a x s))
        (settle_debit-Took a x s ((λ k. select (Accounts.has_id (key k)) s.db.accounts) ∙ e))
  found-Took origin x s (a ∷ b ∷ rows) e = tt

  -- The final status, with what has been taken for it.
  pub final_status-Spends :
      (m : TransactionMethod) (origin : ℕ) (x : ℤ)
      → Spends i (due i m origin x) (final_status m origin x)
  unfolding final_status
  final_status-Spends TransactionMethod.debit origin x = record {
    at = λ s.
        rw (Accounts.get_with_lock_lem origin s)
          (found-Took origin x (begun s) (select (Accounts.has_id origin) s.db.accounts) refl);
  }
  final_status-Spends TransactionMethod.credit origin x = record {
    at = λ s. Took-zero _ s.db (due-credit origin x TransactionStatus.completed);
  }
