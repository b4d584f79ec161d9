-- ===== src/Schemas/Responses.antt =====
-- The response models of backend/app/schemas, and how the endpoints fill them
-- (`model_validate`). The cards' and the users' secrets are no fields of them.
use bank_transaction_system.Base.{ℕ, String, Option}
use bank_transaction_system.Base.Int.{ℤ}
use bank_transaction_system.Models.{
  User, UserRole, Account, Transaction, TransactionType, TransactionMethod, TransactionStatus,
  UserSession,
}

pub record AccountRead : Type 0 where
  pub id : ℕ
  pub user_id : ℕ
  pub balance : ℤ
  pub created_at : ℕ

pub record LoginResponse : Type 0 where
  pub session_token : String
  pub expires_at : ℕ

pub record UserReadCustomer : Type 0 where
  pub id : ℕ
  pub name : String
  pub email : String
  pub created_at : ℕ

pub record CustomerRegistrationResponse : Type 0 where
  pub user : UserReadCustomer
  pub account : AccountRead

pub record UserReadAdmin : Type 0 where
  pub name : String
  pub role : UserRole
  pub id : ℕ
  pub email : String
  pub created_at : ℕ
  pub updated_at : ℕ

-- The method is a text there.
pub record TransactionRead : Type 0 where
  pub id : ℕ
  pub source_card : ℕ
  pub origin_account : ℕ
  pub destination_account : String
  pub amount : ℤ
  pub type : TransactionType
  pub method : TransactionMethod
  pub status : TransactionStatus
  pub scheduled_for : Option ℕ
  pub reversal_of : Option ℕ
  pub created_at : ℕ

abbrev pub read_account : Account → AccountRead
read_account a = record {
  id = a.id;
  user_id = a.user_id;
  balance = a.balance;
  created_at = a.created_at;
}

abbrev pub read_customer : User → UserReadCustomer
read_customer u = record { id = u.id; name = u.name; email = u.email; created_at = u.created_at }

abbrev pub read_admin : User → UserReadAdmin
read_admin u = record {
  name = u.name;
  role = u.role;
  id = u.id;
  email = u.email;
  created_at = u.created_at;
  updated_at = u.updated_at;
}

abbrev pub read_transaction : Transaction → TransactionRead
read_transaction t = record {
  id = t.id;
  source_card = t.source_card;
  origin_account = t.origin_account;
  destination_account = t.destination_account;
  amount = t.amount;
  type = t.type;
  method = t.method;
  status = t.status;
  scheduled_for = t.scheduled_for;
  reversal_of = t.reversal_of;
  created_at = t.created_at;
}

abbrev pub read_registration : User × Account → CustomerRegistrationResponse
read_registration (user, account) = record {
  user = read_customer user;
  account = read_account account;
}

abbrev pub read_login : UserSession × String → LoginResponse
read_login (session, raw_token) = record {
  session_token = raw_token;
  expires_at = session.expires_at;
}
