-- ===== src/Services/Transactions/Balances.antt =====
-- The debit check of backend/app/services/transaction_service.py keeps the balances from falling
-- below zero.
use bank_transaction_system.Base.{ℕ, ◌≡◌, true}
use bank_transaction_system.Base.Rows.{All, All-update_rows}
use bank_transaction_system.Base.Int.{ℤ, pos, leb_ℤ, ◌-ℤ◌, ◌≤ℤ◌, int_laws}
use bank_transaction_system.Models.{User, Account, Db}
use bank_transaction_system.Schemas.{TransactionCreate}
use bank_transaction_system.Platform.{Platform}
use bank_transaction_system.Orm.{ok, Session, Env, Orm}
use bank_transaction_system.Orm.Relates.{IsPreorder}
use bank_transaction_system.Crud.Accounts.{store_balance, has_id, with_balance}
use bank_transaction_system.Crud.Written.{
  store_balance_written, insert_card_written, insert_transaction_written, set_status_written,
}
use bank_transaction_system.Services.Transactions.{
  create_transaction, process_scheduled_transaction,
}
use bank_transaction_system.Services.Transactions.Writes.{Writes, RespectsMoves}
use bank_transaction_system.Services.Transactions.Writes.Created.{create_transaction-related}
use bank_transaction_system.Services.Transactions.Writes.Claimed.{process_scheduled-related}

-- No account is overdrawn.
abbrev pub NonNegative : Db → Type 0
NonNegative d = All (λ (a : Account). pos 0 ≤ℤ a.balance) d.accounts

abbrev pub Keeps : Db → Db → Type 0
Keeps d d' = NonNegative d → NonNegative d'

Keeps-pre : IsPreorder Keeps
Keeps-pre = record { reflexive = λ d h. h; transitive = λ f g h. g (f h) }

deduction_nonneg : (b x : ℤ) → leb_ℤ x b ≡ true → pos 0 ≤ℤ b -ℤ x
deduction_nonneg b x h = grind int_laws

-- The accounts are rewritten only with a balance that is not negative.
pub store_balance-Keeps :
    (i : ℕ) (v : ℤ) (u : Unit {0}) (d d' : Db)
    → pos 0 ≤ℤ v
    → store_balance i v d ≡ ok (u, d')
    → Keeps d d'
store_balance-Keeps i v u d d' nonneg e h = rw ((store_balance_written i v u d d' e).1) (
    All-update_rows (λ (a : Account). pos 0 ≤ℤ a.balance) (has_id i) (with_balance v) d.accounts
      (λ a old. nonneg) h)

pub Keeps-Writes : Writes Keeps
Keeps-Writes = record {
  pre = Keeps-pre;
  inserted_card = λ c a d d' e h. rw ((insert_card_written c a d d' e).1) h;
  inserted = λ t a d d' e h. rw ((insert_transaction_written t a d d' e).1) h;
  deducted = λ a x enough u d d' e.
      store_balance-Keeps a.id (a.balance -ℤ x) u d d' (deduction_nonneg a.balance x enough) e;
}

pub Keeps-RespectsMoves : RespectsMoves Keeps
Keeps-RespectsMoves i new expected f b d d' e h =
    rw ((set_status_written i new expected b d d' e).1) h

module _ ⦃orm : Orm⦄ where
  -- If no account is overdrawn, and what other sessions commit meanwhile overdraws none, then none
  -- is overdrawn after a customer's payment, whatever its outcome.
  pub create_transaction-NonNegative :
      ⦃p : Platform⦄ (env : Env) (payload : TransactionCreate) (user : User) (s : Session)
      → ((d : Db) → NonNegative d → NonNegative (env.commits d))
      → NonNegative s.db
      → NonNegative (create_transaction env payload user s).1.db
  create_transaction-NonNegative env payload user s commits h =
      (create_transaction-related Keeps-Writes env commits payload user).at s h

  -- If no account is overdrawn, none is after a scheduled payment is processed, whatever the
  -- outcome.
  pub process_scheduled-NonNegative :
      (env : Env) (i : ℕ) (s : Session)
      → NonNegative s.db
      → NonNegative (process_scheduled_transaction env i s).1.db
  process_scheduled-NonNegative env i s h =
      (process_scheduled-related Keeps-Writes Keeps-RespectsMoves env i).at s h
