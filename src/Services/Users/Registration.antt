-- ===== src/Services/Users/Registration.antt =====
-- Registrations (`register_customer` of backend/app/services/user_service.py).
use bank_transaction_system.Base.{
  ◌≡◌, Bool, true, false, ◌&&◌, String, none, some, List, [], ◌∷◌, ◌++◌, arith, ==_refl,
  if◌then◌else◌, Bool-cases, inl, inr,
}
use bank_transaction_system.Base.Rows.{select, select-none, exists_row}
use bank_transaction_system.Models.{User, UserRole, Account, Db}
use bank_transaction_system.Schemas.{UserCreate}
use bank_transaction_system.Platform.{Platform, hash_password}
use bank_transaction_system.Orm.{ok, err, data_error, value_error, Session, Env, Orm, others_commit}
use bank_transaction_system.Crud.Statements.{bigint_fits, begun}
use bank_transaction_system.Crud.Accounts
use bank_transaction_system.Crud.Accounts.{insert_account, new_account}
use bank_transaction_system.Crud.Users as Rows
use bank_transaction_system.Crud.Users.{insert_user, new_user}
use bank_transaction_system.Services.Users.{
  check_free, explain, add_customer, register_customer, email_taken,
}

large_rest : (a b : Bool) → a ≡ true → (a && b) ≡ false → b ≡ false
large_rest a b h k = ground (arith, h, k)

both : (a b : Bool) → (a && b) ≡ true → (a ≡ true) × (b ≡ true)
both a b h = (ground (arith, h), ground (arith, h))

-- No user has the email, the national identifier or the phone number.
pub record IsFree (form : UserCreate) (d : Db) : Type 0 where
  pub email : exists_row (Rows.has_email form.email) d.users ≡ false
  pub national_id : exists_row (Rows.has_national_id form.national_id) d.users ≡ false
  pub phone : exists_row (Rows.has_phone form.phone) d.users ≡ false

abbrev pub with_user : User → Db → Db
with_user u d = record d { users = d.users ++ (u ∷ []) }

abbrev pub with_account : Account → Db → Db
with_account a d = record d { accounts = d.accounts ++ (a ∷ []) }

exists-append :
    {A : Type 0} (p : A → Bool) (rows : List A) (x : A)
    → p x ≡ true
    → exists_row p (rows ++ (x ∷ [])) ≡ true
unfolding exists_row
exists-append p [] x h = rw h
exists-append p (y ∷ rows) x h = rw (exists-append p rows x h) (ground arith)

module _ ⦃orm : Orm⦄ ⦃p : Platform⦄ (env : Env) (form : UserCreate) (s : Session)
    (idle : s.in_transaction ≡ false) where
  -- The database that a registration is written to.
  abbrev pub meanwhile : Db
  meanwhile = env.commits s.db

  check_free_ok :
      bigint_fits form.national_id ≡ true
      → bigint_fits form.phone ≡ true
      → IsFree form s.db
      → check_free form (begun s) ≡ (ok tt, begun s)
  unfolding check_free
  check_free_ok short_id short_phone free = simp (
    short_id,
    short_phone,
    Rows.get_by_email_lem,
    select-none (Rows.has_email form.email) s.db.users free.email,
    Rows.get_by_national_id_lem,
    select-none (Rows.has_national_id form.national_id) s.db.users free.national_id,
    Rows.get_by_phone_lem,
    select-none (Rows.has_phone form.phone) s.db.users free.phone,
  )

  email_free : IsFree form s.db → Rows.get_by_email form.email (begun s) ≡ (ok none, begun s)
  email_free free =
      simp (Rows.get_by_email_lem, select-none (Rows.has_email form.email) s.db.users free.email)

  -- On a session without a transaction, an email that one user has when the registration begins is
  -- answered 409, and nothing changes.
  pub email_is_taken :
      (user : User)
      → select (Rows.has_email form.email) s.db.users ≡ user ∷ []
      → register_customer env form s ≡ (err email_taken, s)
  unfolding register_customer add_customer check_free
  email_is_taken user taken =
      rw (orm.begin_idle (User × Account) (add_customer env form) s idle)
        (simp (Rows.get_by_email_lem, taken) (rw (← idle)))

  -- On a session without a transaction, for a customer whose email, national identifier and phone
  -- number are free: if the national identifier or the phone number is too large for its BIGINT
  -- column, the registration fails with DataError, and nothing is written.
  pub too_large :
      IsFree form s.db
      → (bigint_fits form.national_id && bigint_fits form.phone) ≡ false
      → register_customer env form s ≡ (err data_error, record s { in_transaction = false })
  unfolding register_customer add_customer check_free
  too_large free large =
      rw (orm.begin_idle (User × Account) (add_customer env form) s idle)
        (elim (Bool-cases (bigint_fits form.national_id)) [
          | inl short ↦ simp (
            email_free free,
            Rows.get_by_national_id_lem,
            short,
            select-none (Rows.has_national_id form.national_id) s.db.users free.national_id,
            Rows.get_by_phone_lem,
            large_rest (bigint_fits form.national_id) (bigint_fits form.phone) short large,
          )
          | inr long ↦ simp (email_free free, Rows.get_by_national_id_lem, long)
        ])

  -- On a session without a transaction, for a customer whose email, national identifier and phone
  -- number are free and whose numbers fit their columns: if bcrypt refuses the password, the registration fails with ValueError, and
  -- no row of it is kept.
  pub unhashable :
      hash_password form.password env.gensalt ≡ none
      → bigint_fits form.national_id ≡ true
      → bigint_fits form.phone ≡ true
      → IsFree form s.db
      → register_customer env form s ≡ (err value_error, record s { in_transaction = false })
  unfolding register_customer add_customer others_commit Rows.create_customer Rows.create_hashed
  unhashable refused short_id short_phone free =
      rw (orm.begin_idle (User × Account) (add_customer env form) s idle)
        (simp (check_free_ok short_id short_phone free, refused))

  module _ (hash : String) where
    -- The rows of a registration.
    abbrev pub customer : User
    customer = new_user env UserRole.customer hash form

    abbrev pub opened_account : Account
    opened_account = new_account env customer.id

    -- Numbers that fit their columns.
    registers-fitting :
        hash_password form.password env.gensalt ≡ some hash
        → bigint_fits form.national_id ≡ true
        → bigint_fits form.phone ≡ true
        → IsFree form s.db
        → IsFree form meanwhile
        → exists_row (Rows.has_id customer.id) meanwhile.users ≡ false
        → exists_row (Accounts.has_id opened_account.id) meanwhile.accounts ≡ false
        → exists_row (Accounts.has_user customer.id) meanwhile.accounts ≡ false
        → register_customer env form s ≡ (
          ok (customer, opened_account),
          record s {
            db = with_account opened_account (with_user customer meanwhile);
            in_transaction = false;
          },
        )
    unfolding register_customer add_customer others_commit insert_user insert_account
    registers-fitting hashed short_id short_phone free still new_id new_account_id no_account =
        rw (orm.begin_idle (User × Account) (add_customer env form) s idle) (
          simp (
            check_free_ok short_id short_phone free,
            Rows.create_customer_lem env form hash _ hashed,
            short_id,
            short_phone,
            new_id,
            still.national_id,
            still.email,
            still.phone,
            Accounts.create_lem,
            new_account_id,
            no_account,
            exists-append (Rows.has_id customer.id) meanwhile.users customer (==_refl customer.id),
          ))

    -- On a session without a transaction, a registration with a free email, national identifier
    -- and phone number, at its beginning and when its rows are inserted, whose password has a
    -- hash, where the identifiers drawn are new and no account has the new user's: if both numbers
    -- fit their BIGINT columns, the user and an account with a zero balance are added, in one
    -- transaction; else the registration fails with DataError, and nothing is written.
    pub registers :
        hash_password form.password env.gensalt ≡ some hash
        → IsFree form s.db
        → IsFree form meanwhile
        → exists_row (Rows.has_id customer.id) meanwhile.users ≡ false
        → exists_row (Accounts.has_id opened_account.id) meanwhile.accounts ≡ false
        → exists_row (Accounts.has_user customer.id) meanwhile.accounts ≡ false
        → register_customer env form s ≡ (
            if bigint_fits form.national_id && bigint_fits form.phone
            then (
              ok (customer, opened_account),
              record s {
                db = with_account opened_account (with_user customer meanwhile);
                in_transaction = false;
              },
            )
            else (err data_error, record s { in_transaction = false }))
    registers hashed free still new_id new_account_id no_account =
        elim (Bool-cases (bigint_fits form.national_id && bigint_fits form.phone)) [
          | inl short ↦
              let (short_id, short_phone) =
                both (bigint_fits form.national_id) (bigint_fits form.phone) short in
              rw short (
                registers-fitting hashed short_id short_phone free still new_id new_account_id
                  no_account)
          | inr large ↦ rw large (too_large free large)
        ]

    -- On a session without a transaction, with a free email, national identifier and phone number,
    -- a password that has a hash, numbers that fit their columns and a new identifier: if another
    -- session commits a user with the email, and none with the national identifier, between the
    -- check and the insertion, the answer is 409, and no row of this registration is kept.
    pub email_is_taken_meanwhile :
        hash_password form.password env.gensalt ≡ some hash
        → bigint_fits form.national_id ≡ true
        → bigint_fits form.phone ≡ true
        → IsFree form s.db
        → exists_row (Rows.has_id customer.id) meanwhile.users ≡ false
        → exists_row (Rows.has_national_id form.national_id) meanwhile.users ≡ false
        → exists_row (Rows.has_email form.email) meanwhile.users ≡ true
        → register_customer env form s
          ≡ (err email_taken, record s { db = meanwhile; in_transaction = false })
    unfolding register_customer add_customer others_commit insert_user explain
    email_is_taken_meanwhile hashed short_id short_phone free new_id national taken =
        rw (orm.begin_idle (User × Account) (add_customer env form) s idle) (
          simp (
            check_free_ok short_id short_phone free,
            Rows.create_customer_lem env form hash _ hashed,
            short_id,
            short_phone,
            new_id,
            national,
            taken,
          ))
