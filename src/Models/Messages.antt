-- ===== src/Models/Messages.antt =====
-- backend/app/services/sqs_service.py: the body of a message, before it is written as JSON. The
-- message's group is its origin account.
use bank_transaction_system.Base.{ℕ, String}
use bank_transaction_system.Base.Int.{ℤ}
use bank_transaction_system.Models.Transactions.{TransactionMethod}

pub record Message : Type 0 where
  pub transaction_id : ℕ
  pub origin_account : ℕ
  pub destination_account : String
  pub amount : ℤ
  pub method : TransactionMethod
