-- ===== src/Models/Accounts.antt =====
-- backend/app/models/account.py
use bank_transaction_system.Base.{ℕ}
use bank_transaction_system.Base.Int.{ℤ}

-- The balance is a DECIMAL(19, 4), here in ten-thousandths.
pub record Account : Type 0 where
  pub id : ℕ
  pub user_id : ℕ
  pub balance : ℤ
  pub created_at : ℕ
