-- ===== src/System/Users.antt =====
-- What registrations and the accounts' endpoints write: backend/app/services/user_service.py and
-- backend/app/api/api_v1/endpoints/accounts.py.
use bank_transaction_system.Base.{ℕ, String, ◌≡◌, refl, ◌∙◌, List, [], ◌∷◌, ==_iff, false, arith}
use bank_transaction_system.Base.Rows.{select, select_first}
use bank_transaction_system.Crud.Statements.{begun}
use bank_transaction_system.Base.Int.{ℤ, pos, leb_ℤ}
use bank_transaction_system.Models.{User, UserRole, Account, Db}
use bank_transaction_system.Schemas.{UserCreate}
use bank_transaction_system.Platform.{Platform}
use bank_transaction_system.Orm.{
  Result, Error, ok, err, Constraint, Action, pure, or_raise, continue, at_most_one, ◌>>=◌, ◌>>◌,
  Session, Env, Orm, execute, others_commit,
}
use bank_transaction_system.Orm.Relates.{
  Relates, executed-related, Relates-or_raise, Relates-bind, Relates-raise, Relates-execute,
  Relates-begin, Relates-on_integrity_error,
}
use bank_transaction_system.Crud.Users as Rows
use bank_transaction_system.Crud.Accounts
use bank_transaction_system.Services.Users.{
  check_free, explain, add_admin, create_admin, add_customer, register_customer,
}
use bank_transaction_system.Api.Accounts.{
  account_not_found, credit, refresh, add_balance, open_account, admin_create_account,
}
use bank_transaction_system.Crud.Reads.{select_one-kept}
use bank_transaction_system.System.Statements.{Respects, Credits, action_rules}

bigint_parameter-written :
    (n : ℕ) (a : Unit {0}) (d d' : Db) → Rows.bigint_parameter n d ≡ ok (a, d') → d' ≡ d
unfolding Rows.bigint_parameter
bigint_parameter-written n a d d' e = ground (arith, e)

module _ {R : Db → Db → Type 0} (k : Respects R) ⦃orm : Orm⦄ where
  get_by_email-related : (e : String) → Relates R (Rows.get_by_email e)
  unfolding Rows.get_by_email
  get_by_email-related e = select_one-kept k.pre _

  bigint_parameter-related : (n : ℕ) → Relates R (execute (Rows.bigint_parameter n))
  unfolding Rows.bigint_parameter
  bigint_parameter-related n =
      Relates-execute k.pre (Rows.bigint_parameter n)
        (λ a d d' e. rw (bigint_parameter-written n a d d' e) (k.pre.reflexive d))

  get_by_national_id-related : (n : ℕ) → Relates R (Rows.get_by_national_id n)
  unfolding Rows.get_by_national_id
  get_by_national_id-related n =
      Relates-bind k.pre _ _ (bigint_parameter-related n)
        (λ u. select_one-kept k.pre (λ d. select (Rows.has_national_id n) d.users))

  get_by_phone-related : (n : ℕ) → Relates R (Rows.get_by_phone n)
  unfolding Rows.get_by_phone
  get_by_phone-related n =
      Relates-bind k.pre _ _ (bigint_parameter-related n)
        (λ u. select_one-kept k.pre (λ d. select (Rows.has_phone n) d.users))

  get_user-related : (i : ℕ) → Relates R (Rows.get i)
  unfolding Rows.get
  get_user-related i = select_one-kept k.pre _

  get_by_user-related : (u : ℕ) → Relates R (Accounts.get_by_user u)
  unfolding Accounts.get_by_user
  get_by_user-related u = select_one-kept k.pre _

  get_with_lock-related : (i : ℕ) → Relates R (Accounts.get_with_lock i)
  unfolding Accounts.get_with_lock
  get_with_lock-related i = select_one-kept k.pre _

  create_account-related : (env : Env) (u : ℕ) → Relates R (Accounts.create env u)
  unfolding Accounts.create
  create_account-related env u = Relates-execute k.pre _ (k.opened env u)

  ruleset user_rules = (
    action_rules, get_by_email-related, get_by_national_id-related, get_by_phone-related,
    get_user-related, get_by_user-related, get_with_lock-related, create_account-related,
  )

  check_free-related : (form : UserCreate) → Relates R (check_free form)
  unfolding check_free
  check_free-related form = search (k.pre, user_rules) depth 16

  continue-kept :
      {A B : Type 0} {d : Db} (r : Result A × Session) (b : B)
      → R d r.1.db
      → R d (continue r (λ a. pure b)).1.db
  continue-kept (ok a, s) b h = h
  continue-kept (err e, s) b h = h

  -- The account that is locked is the one that is credited.
  add_balance_to-related :
      (c : Credits R) (i : ℕ) (a : Account) (x : ℤ) (s : Session)
      → leb_ℤ x (pos 0) ≡ false
      → select (Accounts.has_id i) s.db.accounts ≡ a ∷ []
      → R s.db (Accounts.add_balance a x s).1.db
  add_balance_to-related c i a x s positive one =
      let same : a.id ≡ i =
        (==_iff a.id i).0 (select_first (Accounts.has_id i) s.db.accounts one) in
      rw (Accounts.add_balance_lem a x s) (
        executed-related k.pre s _ (λ u d' e.
          c.credited a x positive u s.db d'
            ((λ k. select (Accounts.has_id (same k)) s.db.accounts) ∙ one) e))

  fetched-related :
      {B : Type 0} (rows : List Account) (e : Error) (f : Account → Action B) (s : Session)
      → ((a : Account) → rows ≡ a ∷ [] → R s.db (f a s).1.db)
      → R s.db (continue (at_most_one rows, s) (λ found. or_raise found e >>= f)).1.db
  fetched-related [] e f s h = k.pre.reflexive s.db
  fetched-related (a ∷ []) e f s h = h a refl
  fetched-related (a ∷ b ∷ rows) e f s h = k.pre.reflexive s.db

  -- What follows a locked read finds the row that was read.
  locked-related :
      {B : Type 0} (i : ℕ) (e : Error) (f : Account → Action B)
      → ((a : Account) (s : Session)
          → select (Accounts.has_id i) s.db.accounts ≡ a ∷ []
          → R s.db (f a s).1.db)
      → Relates R (Accounts.get_with_lock i >>= λ found. or_raise found e >>= f)
  locked-related i e f h = record {
    at = λ s. rw (Accounts.get_with_lock_lem i s) (
        fetched-related (select (Accounts.has_id i) s.db.accounts) e f (begun s)
          (λ a. h a (begun s)));
  }

  raise_credit-related :
      (c : Credits R) (amount : ℤ) (a : Account)
      → leb_ℤ amount (pos 0) ≡ false
      → Relates R (do
        locked ← Accounts.get_with_lock a.id
        locked_account ← or_raise locked account_not_found
        Accounts.add_balance locked_account amount
        pure locked_account)
  raise_credit-related c amount a positive =
      locked-related a.id account_not_found _
        (λ b s one. continue-kept _ _ (add_balance_to-related c a.id b amount s positive one))

  credit-related :
      (c : Credits R) (amount : ℤ) (user : User)
      → leb_ℤ amount (pos 0) ≡ false
      → Relates R (credit amount user)
  unfolding credit
  credit-related c amount user positive =
      search (k.pre, user_rules, raise_credit-related c, positive) depth 16

  pub add_balance-related :
      (c : Credits R) (amount : ℤ) (user : User)
      → leb_ℤ amount (pos 0) ≡ false
      → Relates R (add_balance amount user)
  unfolding add_balance refresh
  add_balance-related c amount user positive =
      search (k.pre, user_rules, select_one-kept, credit-related c, positive) depth 12

  pub admin_create_account-related : (env : Env) (u : ℕ) → Relates R (admin_create_account env u)
  unfolding admin_create_account open_account
  admin_create_account-related env u = search (k.pre, user_rules) depth 16

  -- The relation holds of what other sessions commit meanwhile too.
  module _ ⦃p : Platform⦄ (env : Env) (commits : (d : Db) → R d (env.commits d)) where
    others_commit-related : Relates R (others_commit env)
    unfolding others_commit
    others_commit-related = record { at = λ s. commits s.db }

    explain-related : {A : Type 0} (c : Constraint) → Relates R (explain {A = A} env c)
    unfolding explain
    explain-related c = Relates-bind k.pre _ _ others_commit-related (λ u. Relates-raise k.pre _)

    create_hashed-related :
        (role : UserRole) (form : UserCreate) → Relates R (Rows.create_hashed env role form)
    unfolding Rows.create_hashed
    create_hashed-related role form =
        Relates-bind k.pre _ _ (Relates-or_raise k.pre _ _)
          (λ hash. Relates-execute k.pre _ (k.inserted_user _))

    create_user-related : (form : UserCreate) → Relates R (Rows.create_customer env form)
    unfolding Rows.create_customer
    create_user-related form = create_hashed-related UserRole.customer form

    create_admin_row-related : (form : UserCreate) → Relates R (Rows.create_admin env form)
    unfolding Rows.create_admin
    create_admin_row-related form = create_hashed-related UserRole.admin form

    add_customer-related : (form : UserCreate) → Relates R (add_customer env form)
    unfolding add_customer
    add_customer-related form =
        search (k.pre, user_rules, others_commit-related, check_free-related, create_user-related)
          depth 12

    add_admin-related : (form : UserCreate) → Relates R (add_admin env form)
    unfolding add_admin
    add_admin-related form =
        search
          (k.pre, user_rules, others_commit-related, check_free-related, create_admin_row-related)
          depth 12

    pub register_customer-related : (form : UserCreate) → Relates R (register_customer env form)
    unfolding register_customer
    register_customer-related form =
        Relates-on_integrity_error k.pre _ _ (Relates-begin k.pre _ (add_customer-related form))
          (λ c. explain-related c)

    pub create_admin-related : (form : UserCreate) → Relates R (create_admin env form)
    unfolding create_admin
    create_admin-related form =
        Relates-on_integrity_error k.pre _ _ (Relates-begin k.pre _ (add_admin-related form))
          (λ c. explain-related c)
