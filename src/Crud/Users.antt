-- ===== src/Crud/Users.antt =====
-- backend/app/crud/user.py
use bank_transaction_system.Base.{
  ℕ, String, ◌≡◌, Bool, Option, [], ◌∷◌, ◌++◌, ◌==◌, str_eq, if◌then◌else◌, not, ◌&&◌, Bool-cases,
  inl, inr, some,
}
use bank_transaction_system.Base.Rows.{select, exists_row}
use bank_transaction_system.Models.{User, UserRole, role_eq, Table}
use bank_transaction_system.Schemas.{UserCreate}
use bank_transaction_system.Platform.{Platform, hash_password}
use bank_transaction_system.Orm.{
  ok, err, integrity, data_error, value_error, or_raise, ◌>>=◌, ◌>>◌, primary_key, users_email,
  users_national_id, users_phone, Action, Session, Env, Statement, executed, Orm, execute,
  at_most_one,
}
use bank_transaction_system.Crud.Statements.{bigint_fits, begun, select_one, select_one_lem}

abbrev pub has_id : ℕ → User → Bool
has_id i u = u.id == i

abbrev pub has_email : String → User → Bool
has_email e u = str_eq u.email e

abbrev pub has_national_id : ℕ → User → Bool
has_national_id n u = u.national_id == n

abbrev pub has_phone : ℕ → User → Bool
has_phone n u = u.phone == n

-- the two BIGINT columns and the four keys of the table
unfoldable pub insert_user : User → Statement User
insert_user u d =
    if not (bigint_fits u.national_id && bigint_fits u.phone)
    then err data_error
    else if exists_row (has_id u.id) d.users
    then err (integrity primary_key)
    else if exists_row (has_national_id u.national_id) d.users
    then err (integrity users_national_id)
    else if exists_row (has_email u.email) d.users
    then err (integrity users_email)
    else if exists_row (has_phone u.phone) d.users
    then err (integrity users_phone)
    else ok (u, record d { users = d.users ++ (u ∷ []) })

abbrev pub new_user : Env → UserRole → String → UserCreate → User
new_user env role password_hash form = record {
  id = env.uuid4 Table.users;
  name = form.name;
  national_id = form.national_id;
  email = form.email;
  phone = form.phone;
  password_hash = password_hash;
  role = role;
  registered_ip = form.registered_ip;
  created_at = env.now;
  updated_at = env.now;
}

unfoldable pub is_admin : User → Bool
is_admin u = role_eq u.role UserRole.admin

-- A parameter of a query that is compared with a BIGINT column: asyncpg refuses one out of its range.
unfoldable pub bigint_parameter : ℕ → Statement (Unit {0})
bigint_parameter n d = if bigint_fits n then ok (tt, d) else err data_error

module _ ⦃orm : Orm⦄ where
  unfoldable pub get : ℕ → Action (Option User)
  get user_id = select_one (λ d. select (has_id user_id) d.users)

  unfoldable pub get_by_email : String → Action (Option User)
  get_by_email email = select_one (λ d. select (has_email email) d.users)

  unfoldable pub get_by_national_id : ℕ → Action (Option User)
  get_by_national_id national_id = do
    execute (bigint_parameter national_id)
    select_one (λ d. select (has_national_id national_id) d.users)

  unfoldable pub get_by_phone : ℕ → Action (Option User)
  get_by_phone phone = do
    execute (bigint_parameter phone)
    select_one (λ d. select (has_phone phone) d.users)

  -- What the two constructors share: the hash, which may raise, and the row.
  unfoldable pub create_hashed : ⦃p : Platform⦄ → Env → UserRole → UserCreate → Action User
  create_hashed env role form = do
    hash ← or_raise (hash_password form.password env.gensalt) value_error
    execute (insert_user (new_user env role hash form))

  unfoldable pub create_admin : ⦃p : Platform⦄ → Env → UserCreate → Action User
  create_admin env form = create_hashed env UserRole.admin form

  unfoldable pub create_customer : ⦃p : Platform⦄ → Env → UserCreate → Action User
  create_customer env form = create_hashed env UserRole.customer form

  pub get_lem :
      (i : ℕ) (s : Session) → get i s ≡ (at_most_one (select (has_id i) s.db.users), begun s)
  unfolding get
  get_lem i s = select_one_lem (λ d. select (has_id i) d.users) s

  pub get_by_email_lem :
      (e : String) (s : Session)
      → get_by_email e s ≡ (at_most_one (select (has_email e) s.db.users), begun s)
  unfolding get_by_email
  get_by_email_lem e s = select_one_lem (λ d. select (has_email e) d.users) s

  pub get_by_national_id_lem :
      (n : ℕ) (s : Session)
      → get_by_national_id n s ≡ (
          if bigint_fits n
          then (at_most_one (select (has_national_id n) s.db.users), begun s)
          else (err data_error, begun s))
  unfolding get_by_national_id bigint_parameter
  get_by_national_id_lem n s = elim (Bool-cases (bigint_fits n)) [
    | inl short ↦
        simp (orm.execute_lem, short, select_one_lem (λ d. select (has_national_id n) d.users))
    | inr long ↦ simp (orm.execute_lem, long)
  ]

  pub get_by_phone_lem :
      (n : ℕ) (s : Session)
      → get_by_phone n s ≡ (
          if bigint_fits n
          then (at_most_one (select (has_phone n) s.db.users), begun s)
          else (err data_error, begun s))
  unfolding get_by_phone bigint_parameter
  get_by_phone_lem n s = elim (Bool-cases (bigint_fits n)) [
    | inl short ↦ simp (orm.execute_lem, short, select_one_lem (λ d. select (has_phone n) d.users))
    | inr long ↦ simp (orm.execute_lem, long)
  ]

  pub create_admin_lem :
      ⦃p : Platform⦄ (env : Env) (form : UserCreate) (hash : String) (s : Session)
      → hash_password form.password env.gensalt ≡ some hash
      → create_admin env form s
        ≡ executed s (insert_user (new_user env UserRole.admin hash form) s.db)
  unfolding create_admin create_hashed
  create_admin_lem env form hash s h =
      rw h (orm.execute_lem User (insert_user (new_user env UserRole.admin hash form)) s)

  pub create_customer_lem :
      ⦃p : Platform⦄ (env : Env) (form : UserCreate) (hash : String) (s : Session)
      → hash_password form.password env.gensalt ≡ some hash
      → create_customer env form s
        ≡ executed s (insert_user (new_user env UserRole.customer hash form) s.db)
  unfolding create_customer create_hashed
  create_customer_lem env form hash s h =
      rw h (orm.execute_lem User (insert_user (new_user env UserRole.customer hash form)) s)
