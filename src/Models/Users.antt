-- ===== src/Models/Users.antt =====
-- backend/app/models/user.py
use bank_transaction_system.Base.{ℕ, String, Bool, true, false, Option}

pub data UserRole : Type 0 where
  admin customer : UserRole

abbrev pub role_eq : UserRole → UserRole → Bool
role_eq UserRole.admin UserRole.admin = true
role_eq UserRole.customer UserRole.customer = true
role_eq _ _ = false

-- A UUID and a timestamp (naive UTC) are only compared: numbers.
pub record User : Type 0 where
  pub id : ℕ
  pub name : String
  pub national_id : ℕ
  pub email : String
  pub phone : ℕ
  pub password_hash : String
  pub role : UserRole
  pub registered_ip : Option String
  pub created_at : ℕ
  pub updated_at : ℕ
