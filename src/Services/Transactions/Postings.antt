-- ===== src/Services/Transactions/Postings.antt =====
-- The rows that a payment adds and the balance that it lowers
-- (backend/app/services/transaction_service.py).
use bank_transaction_system.Base.{
  ℕ, ◌≡◌, refl, true, false, Option, none, some, [], ◌∷◌, ◌++◌, arith,
}
use bank_transaction_system.Base.Rows.{select, update_rows, exists_row-update_rows}
use bank_transaction_system.Base.Int.{ℤ, pos, leb_ℤ, ◌-ℤ◌}
use bank_transaction_system.Models.{
  Account, Card, Transaction, TransactionType, TransactionStatus, Db,
}
use bank_transaction_system.Schemas.{TransactionCreate}
use bank_transaction_system.Orm.{ok, Env}
use bank_transaction_system.Crud.Statements.{numeric_fits}
use bank_transaction_system.Crud.Accounts.{store_balance, has_id, with_balance}
use bank_transaction_system.Crud.Transactions as Rows
use bank_transaction_system.Crud.Transactions.{insert_transaction, new_transaction}
use bank_transaction_system.Services.Transactions.{row_of}

-- A payment that is a reversal names a row of the table.
abbrev pub ReversalKnown : Option ℕ → Db → Type 0
ReversalKnown none d = Unit
ReversalKnown (some i) d = (t : Transaction) × (select (Rows.has_id i) d.transactions ≡ t ∷ [])

-- The database with one more row; and with an account's balance lowered.
abbrev pub added : Transaction → Db → Db
added t d = record d { transactions = d.transactions ++ (t ∷ []) }

abbrev pub debited : Account → ℤ → Db → Db
debited a x d = record d {
  accounts = update_rows (has_id a.id) (with_balance (a.balance -ℤ x)) d.accounts;
}

-- The row of a national payment.
abbrev pub national_row : Env → TransactionCreate → Card → TransactionStatus → Transaction
national_row env payload card st =
    new_transaction env
      (record (row_of payload card st) { transaction_type = TransactionType.national })

-- No constraint of the table refuses the row.
abbrev pub Insertable : Transaction → Db → Type 0
Insertable t d = insert_transaction t d ≡ ok (t, added t d)

pub insert_after_debit :
    (t : Transaction) (a : Account) (x : ℤ) (d : Db) → Insertable t d → Insertable t (debited a x d)
unfolding insert_transaction
insert_after_debit t a x d h =
    rw
      (exists_row-update_rows (has_id t.origin_account) (has_id a.id)
        (with_balance (a.balance -ℤ x)) d.accounts (λ b. refl))
      (ground arith)

-- An amount that a row may hold is positive.
pub Insertable-positive :
    (t : Transaction) (d : Db) → Insertable t d → leb_ℤ t.amount (pos 0) ≡ false
unfolding insert_transaction
Insertable-positive t d h = ground arith

debit_fits :
    (b x : ℤ)
    → numeric_fits b ≡ true
    → leb_ℤ x (pos 0) ≡ false
    → leb_ℤ x b ≡ true
    → numeric_fits (b -ℤ x) ≡ true
unfolding numeric_fits ◌-ℤ◌
debit_fits b x fits positive enough = ground arith

pub store_debit :
    (a : Account) (x : ℤ) (d : Db)
    → numeric_fits a.balance ≡ true
    → leb_ℤ x (pos 0) ≡ false
    → leb_ℤ x a.balance ≡ true
    → store_balance a.id (a.balance -ℤ x) d ≡ ok (tt, debited a x d)
unfolding store_balance
store_debit a x d fits positive enough = rw (debit_fits a.balance x fits positive enough)
