-- ===== src/Scripts.antt =====
-- backend/scripts/seed_admin.py
pub mod Seeded
use bank_transaction_system.Base.{ℕ, String, Option, none, some, List, [], ◌∷◌}
use bank_transaction_system.Base.Rows.{select}
use bank_transaction_system.Models.{User, UserRole, Table, Db}
use bank_transaction_system.Schemas.{UserCreate}
use bank_transaction_system.Platform.{Platform}
use bank_transaction_system.Orm.{Action, Env, pure, ◌>>=◌, ◌>>◌, Orm, commit}
use bank_transaction_system.Crud.Statements.{select_all}
use bank_transaction_system.Crud.Users as Rows

abbrev pub admin_email : String
admin_email = "admin@bankdev.local"

-- The constants of the script; the password is from the environment.
abbrev pub admin_form : String → UserCreate
admin_form admin_password = record {
  name = "Dev Admin";
  email = admin_email;
  password = admin_password;
  national_id = 99999999;
  phone = 600000001;
  registered_ip = none;
}

-- `result.scalars().first()`
abbrev pub first : {A : Type 0} → List A → Option A
first [] = none
first (a ∷ rows) = some a

module _ ⦃orm : Orm⦄ ⦃p : Platform⦄ where
  -- The row that `session.add` is given is inserted by the commit.
  unfoldable pub seed_missing : Env → String → Option User → Action (Unit {0})
  seed_missing env admin_password (some existing) = pure tt
  seed_missing env admin_password none = do
    Rows.create_admin env (admin_form admin_password)
    commit

  unfoldable pub seed : Env → String → Action (Unit {0})
  seed env admin_password = do
    rows ← select_all (λ d. select (Rows.has_email admin_email) d.users)
    seed_missing env admin_password (first rows)
