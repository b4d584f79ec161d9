-- ===== src/Schemas/Payloads.antt =====
-- backend/app/schemas/card.py, transaction.py and user.py: the fields of the payloads.
use bank_transaction_system.Base.{ℕ, String, Option}
use bank_transaction_system.Base.Int.{ℤ}
use bank_transaction_system.Models.{CardType, TransactionType, TransactionStatus}

pub record CardInput : Type 0 where
  pub number : String
  pub expiration_month : ℕ
  pub expiration_year : ℕ
  pub cvv : String
  pub card_type : CardType

pub record TransactionCreate : Type 0 where
  pub card : CardInput
  pub destination_account : String
  pub amount : ℤ
  pub type : TransactionType
  pub scheduled_for : Option ℕ
  pub reversal_of : Option ℕ

pub record TransactionListFilters : Type 0 where
  pub user_id : Option ℕ
  pub account_id : Option ℕ
  pub status : Option TransactionStatus
  pub type : Option TransactionType
  pub date_from : Option ℕ
  pub date_to : Option ℕ
  pub limit : ℕ
  pub offset : ℕ

-- AdminUserCreate and CustomerUserCreate have the same fields.
pub record UserCreate : Type 0 where
  pub name : String
  pub email : String
  pub password : String
  pub national_id : ℕ
  pub phone : ℕ
  pub registered_ip : Option String
