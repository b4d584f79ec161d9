-- ===== src/Models/History.antt =====
-- backend/app/models/transaction_history.py
use bank_transaction_system.Base.{ℕ, String}
use bank_transaction_system.Base.Int.{ℤ}

pub record TransactionHistory : Type 0 where
  pub id : ℕ
  pub transaction_id : ℕ
  pub user_id : ℕ
  pub origin_account_id : ℕ
  pub destination_account : String
  pub amount : ℤ
  pub type : String
  pub method : String
  pub status : String
  pub year : ℕ
  pub month : ℕ
  pub day : ℕ
  pub hour : ℕ
  pub created_at : ℕ
  pub archived_at : ℕ
