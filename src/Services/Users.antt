-- ===== src/Services/Users.antt =====
-- backend/app/services/user_service.py
pub mod Registration
use bank_transaction_system.Base.{Bool, true, false, Option, none, some}
use bank_transaction_system.Models.{User, Account}
use bank_transaction_system.Schemas.{UserCreate}
use bank_transaction_system.Platform.{Platform}
use bank_transaction_system.Orm.{
  Constraint, Error, http, integrity, users_email, users_national_id, users_phone, Action, Env,
  pure, raise, raise_if, ◌>>=◌, ◌>>◌, others_commit, on_integrity_error, Orm, begin,
}
use bank_transaction_system.Crud.Accounts
use bank_transaction_system.Crud.Users as Rows

abbrev pub email_taken : Error
email_taken = http 409 "A user with this email already exists."

abbrev pub national_id_taken : Error
national_id_taken = http 409 "A user with this national_id already exists."

abbrev pub phone_taken : Error
phone_taken = http 409 "A user with this phone already exists."

-- `_raise_for_integrity_error`, and the `raise` behind it: the constraint's name tells the column.
abbrev pub error_of : Constraint → Error
error_of users_email = email_taken
error_of users_national_id = national_id_taken
error_of users_phone = phone_taken
error_of c = integrity c

abbrev pub is_some : {A : Type 0} → Option A → Bool
is_some none = false
is_some (some a) = true

module _ ⦃orm : Orm⦄ where
  -- The three look-ups that both functions begin with.
  unfoldable pub check_free : UserCreate → Action (Unit {0})
  check_free form = do
    existing ← Rows.get_by_email form.email
    raise_if (is_some existing) email_taken
    existing_nid ← Rows.get_by_national_id form.national_id
    raise_if (is_some existing_nid) national_id_taken
    existing_phone ← Rows.get_by_phone form.phone
    raise_if (is_some existing_phone) phone_taken

  -- The rolled back session sees what the other one has committed.
  unfoldable pub explain : {A : Type 0} → Env → Constraint → Action A
  explain env c = do others_commit env; raise (error_of c)

  module _ ⦃p : Platform⦄ where
    unfoldable pub add_admin : Env → UserCreate → Action User
    add_admin env form = do check_free form; others_commit env; Rows.create_admin env form

    unfoldable pub create_admin : Env → UserCreate → Action User
    create_admin env form s = on_integrity_error (begin (add_admin env form) s) (explain env)

    unfoldable pub add_customer : Env → UserCreate → Action (User × Account)
    add_customer env form = do
      check_free form
      others_commit env
      user ← Rows.create_customer env form
      account ← Accounts.create env user.id
      pure (user, account)

    unfoldable pub register_customer : Env → UserCreate → Action (User × Account)
    register_customer env form s =
        on_integrity_error (begin (add_customer env form) s) (explain env)
