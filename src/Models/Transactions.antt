-- ===== src/Models/Transactions.antt =====
-- backend/app/models/transaction.py
use bank_transaction_system.Base.{ℕ, String, Bool, true, false, Option}
use bank_transaction_system.Base.Int.{ℤ}

pub data TransactionType : Type 0 where
  national international : TransactionType

pub data TransactionMethod : Type 0 where
  debit credit : TransactionMethod

pub data TransactionStatus : Type 0 where
  pending completed failed scheduled processing : TransactionStatus

-- `==` of the enums
abbrev pub type_eq : TransactionType → TransactionType → Bool
type_eq TransactionType.national TransactionType.national = true
type_eq TransactionType.international TransactionType.international = true
type_eq _ _ = false

abbrev pub method_eq : TransactionMethod → TransactionMethod → Bool
method_eq TransactionMethod.debit TransactionMethod.debit = true
method_eq TransactionMethod.credit TransactionMethod.credit = true
method_eq _ _ = false

abbrev pub status_eq : TransactionStatus → TransactionStatus → Bool
status_eq TransactionStatus.pending TransactionStatus.pending = true
status_eq TransactionStatus.completed TransactionStatus.completed = true
status_eq TransactionStatus.failed TransactionStatus.failed = true
status_eq TransactionStatus.scheduled TransactionStatus.scheduled = true
status_eq TransactionStatus.processing TransactionStatus.processing = true
status_eq _ _ = false

pub record Transaction : Type 0 where
  pub id : ℕ
  pub source_card : ℕ
  pub origin_account : ℕ
  pub destination_account : String
  pub amount : ℤ
  pub type : TransactionType
  pub method : TransactionMethod
  pub status : TransactionStatus
  pub scheduled_for : Option ℕ
  pub reversal_of : Option ℕ
  pub created_at : ℕ
