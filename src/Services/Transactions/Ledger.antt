-- ===== src/Services/Transactions/Ledger.antt =====
-- The ledger of an account: its balance and what its debit cards have paid. It is an account of
-- backend/app/services/transaction_service.py that does not depend on how a payment is carried out.
pub mod Sums
pub mod Spends
pub mod Debited
pub mod Created
pub mod Moves
pub mod Settled
pub mod Claimed
use bank_transaction_system.Base.{ℕ, ◌==◌, Bool, true, false, List, [], ◌∷◌, ◌&&◌, if◌then◌else◌}
use bank_transaction_system.Base.Rows.{select}
use bank_transaction_system.Base.Int.{ℤ, pos, ◌+ℤ◌}
use bank_transaction_system.Models.{
  Account, Transaction, TransactionMethod, TransactionStatus, method_eq, status_eq, Db,
}
use bank_transaction_system.Crud.Accounts.{has_id}

unfoldable pub total : {A : Type 0} → (A → ℤ) → List A → ℤ
total f [] = pos 0
total f (x ∷ xs) = f x +ℤ total f xs

-- A debit that is COMPLETED has been taken from its account.
abbrev pub is_paid : ℕ → Transaction → Bool
is_paid i t =
    t.origin_account == i
    && method_eq t.method TransactionMethod.debit
    && status_eq t.status TransactionStatus.completed

unfoldable pub balance_of : ℕ → Db → ℤ
unfolding total
balance_of i d = total (λ (a : Account). a.balance) (select (has_id i) d.accounts)

unfoldable pub paid_by : ℕ → Db → ℤ
unfolding total
paid_by i d = total (λ (t : Transaction). t.amount) (select (is_paid i) d.transactions)

-- The money that has come to an account: what it holds, and what it has paid.
abbrev pub ledger : ℕ → Db → ℤ
ledger i d = balance_of i d +ℤ paid_by i d

-- What a payment takes from an account: the amount of a debit that is COMPLETED.
abbrev pub due : ℕ → TransactionMethod → ℕ → ℤ → TransactionStatus → ℤ
due i method origin amount status =
    if origin == i
      && method_eq method TransactionMethod.debit
      && status_eq status TransactionStatus.completed
    then amount
    else pos 0

abbrev pub owed : ℕ → Transaction → ℤ
owed i t = due i t.method t.origin_account t.amount t.status
