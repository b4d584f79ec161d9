-- ===== src/Integrity/Registered.antt =====
-- The insertions of users and accounts (backend/app/crud/user.py, account.py) and the updates of a
-- balance keep the integrity of the database.
use bank_transaction_system.Base.{ℕ, ◌≡◌, refl, ◌∙◌, true, false, List, [], ◌∷◌, ◌++◌, arith, Bool}
use bank_transaction_system.Base.Rows.{
  exists_row, update_rows, All, All-append, All-update_rows, exists_row-update_rows,
}
use bank_transaction_system.Base.Int.{ℤ}
use bank_transaction_system.Base.Distinct.{
  IsKey-ℕ, IsKey-String, exists-left, Distinct-append, Distinct-update_rows,
}
use bank_transaction_system.Models.{User, Account, Db}
use bank_transaction_system.Orm.{ok}
use bank_transaction_system.Crud.Statements.{numeric_fits}
use bank_transaction_system.Crud.Users
use bank_transaction_system.Crud.Users.{insert_user}
use bank_transaction_system.Crud.Accounts
use bank_transaction_system.Crud.Accounts.{insert_account, store_balance, with_balance}
use bank_transaction_system.Crud.Written.{insert_account_written, store_balance_written}
use bank_transaction_system.Integrity.{WellFormed}

-- What the checks of an insertion have found.
pub record IsNewUser (u : User) (d : Db) : Type 0 where
  pub id : exists_row (Users.has_id u.id) d.users ≡ false
  pub national_id : exists_row (Users.has_national_id u.national_id) d.users ≡ false
  pub email : exists_row (Users.has_email u.email) d.users ≡ false
  pub phone : exists_row (Users.has_phone u.phone) d.users ≡ false

pub insert_user_written :
    (u a : User) (d d' : Db)
    → insert_user u d ≡ ok (a, d')
    → IsNewUser u d × (d' ≡ record d { users = d.users ++ (u ∷ []) })
unfolding insert_user
insert_user_written u a d d' e = (
  record {
    id = ground arith;
    national_id = ground arith;
    email = ground arith;
    phone = ground arith;
  },
  ground arith,
)

-- Rows that refer to a user or an account still do when rows are added there.
pub All-known :
    {A B : Type 0} (p : A → B → Bool) (rows : List A) (old more : List B)
    → All (λ a. exists_row (p a) old ≡ true) rows
    → All (λ a. exists_row (p a) (old ++ more) ≡ true) rows
All-known p [] old more h = tt
All-known p (a ∷ rows) old more h = (exists-left (p a) old more h.0, All-known p rows old more h.1)

pub insert_user-WellFormed :
    (u a : User) (d d' : Db) → insert_user u d ≡ ok (a, d') → WellFormed d → WellFormed d'
insert_user-WellFormed u a d d' e w =
    let (new, written) = insert_user_written u a d d' e in
    rw written (record {
      users = record {
        ids = Distinct-append _ (IsKey-ℕ (λ (v : User). v.id)) d.users u new.id w.users.ids;
        national_ids =
            Distinct-append _ (IsKey-ℕ (λ (v : User). v.national_id)) d.users u new.national_id
              w.users.national_ids;
        emails =
            Distinct-append _ (IsKey-String (λ (v : User). v.email)) d.users u new.email
              w.users.emails;
        phones =
            Distinct-append _ (IsKey-ℕ (λ (v : User). v.phone)) d.users u new.phone w.users.phones;
      };
      accounts = record {
        ids = w.accounts.ids;
        owners = w.accounts.owners;
        users_known =
            All-known (λ (x : Account). Users.has_id x.user_id) d.accounts d.users (u ∷ [])
              w.accounts.users_known;
        fits = w.accounts.fits;
      };
      cards = w.cards;
      transactions = w.transactions;
      sessions = record {
        ids = w.sessions.ids;
        owners = w.sessions.owners;
        users_known = All-known _ d.sessions d.users (u ∷ []) w.sessions.users_known;
      };
      logs = record {
        log_ids = w.logs.log_ids;
        log_users = All-known _ d.audit_logs d.users (u ∷ []) w.logs.log_users;
        event_ids = w.logs.event_ids;
        event_users = All-known _ d.session_history d.users (u ∷ []) w.logs.event_users;
      };
      archive = w.archive;
    })

pub record IsNewAccount (x : Account) (d : Db) : Type 0 where
  pub id : exists_row (Accounts.has_id x.id) d.accounts ≡ false
  pub owner : exists_row (Accounts.has_user x.user_id) d.accounts ≡ false
  pub user_known : exists_row (Users.has_id x.user_id) d.users ≡ true

pub insert_account_checked :
    (x a : Account) (d d' : Db) → insert_account x d ≡ ok (a, d') → IsNewAccount x d
unfolding insert_account
insert_account_checked x a d d' e = record {
  id = ground arith;
  owner = ground arith;
  user_known = ground arith;
}

pub insert_account-WellFormed :
    (x a : Account) (d d' : Db)
    → numeric_fits x.balance ≡ true
    → insert_account x d ≡ ok (a, d')
    → WellFormed d
    → WellFormed d'
insert_account-WellFormed x a d d' fits e w =
    let new = insert_account_checked x a d d' e in
    rw ((insert_account_written x a d d' e).1) (record {
      users = w.users;
      accounts = record {
        ids =
            Distinct-append _ (IsKey-ℕ (λ (v : Account). v.id)) d.accounts x new.id w.accounts.ids;
        owners =
            Distinct-append _ (IsKey-ℕ (λ (v : Account). v.user_id)) d.accounts x new.owner
              w.accounts.owners;
        users_known = All-append _ d.accounts (x ∷ []) w.accounts.users_known (new.user_known, tt);
        fits = All-append _ d.accounts (x ∷ []) w.accounts.fits (fits, tt);
      };
      cards = record {
        ids = w.cards.ids;
        numbers = w.cards.numbers;
        accounts_known = All-known _ d.cards d.accounts (x ∷ []) w.cards.accounts_known;
        months = w.cards.months;
        years = w.cards.years;
      };
      transactions = record {
        ids = w.transactions.ids;
        cards_known = w.transactions.cards_known;
        accounts_known =
            All-known _ d.transactions d.accounts (x ∷ []) w.transactions.accounts_known;
        originals_known = w.transactions.originals_known;
        positive = w.transactions.positive;
        fits = w.transactions.fits;
      };
      sessions = w.sessions;
      logs = w.logs;
      archive = w.archive;
    })

-- An update that leaves what the references read.
pub All-updated :
    {A B : Type 0} (p : A → B → Bool) (q : B → Bool) (f : B → B) (rows : List A) (old : List B)
    → ((a : A) (x : B) → p a (f x) ≡ p a x)
    → All (λ a. exists_row (p a) old ≡ true) rows
    → All (λ a. exists_row (p a) (update_rows q f old) ≡ true) rows
All-updated p q f [] old k h = tt
All-updated p q f (a ∷ rows) old k h =
    (exists_row-update_rows (p a) q f old (k a) ∙ h.0, All-updated p q f rows old k h.1)

pub store_balance-WellFormed :
    (i : ℕ) (v : ℤ) (u : Unit {0}) (d d' : Db)
    → store_balance i v d ≡ ok (u, d')
    → WellFormed d
    → WellFormed d'
store_balance-WellFormed i v u d d' e w =
    let (fits, written) = store_balance_written i v u d d' e in
    let q = Accounts.has_id i in
    let f = with_balance v in
    rw written (record {
      users = w.users;
      accounts = record {
        ids = Distinct-update_rows _ q f d.accounts (λ x y. refl) (λ x y. refl) w.accounts.ids;
        owners =
            Distinct-update_rows _ q f d.accounts (λ x y. refl) (λ x y. refl) w.accounts.owners;
        users_known = All-update_rows _ q f d.accounts (λ x h. h) w.accounts.users_known;
        fits = All-update_rows _ q f d.accounts (λ x h. fits) w.accounts.fits;
      };
      cards = record {
        ids = w.cards.ids;
        numbers = w.cards.numbers;
        accounts_known = All-updated _ q f d.cards d.accounts (λ c x. refl) w.cards.accounts_known;
        months = w.cards.months;
        years = w.cards.years;
      };
      transactions = record {
        ids = w.transactions.ids;
        cards_known = w.transactions.cards_known;
        accounts_known =
            All-updated _ q f d.transactions d.accounts (λ t x. refl) w.transactions.accounts_known;
        originals_known = w.transactions.originals_known;
        positive = w.transactions.positive;
        fits = w.transactions.fits;
      };
      sessions = w.sessions;
      logs = w.logs;
      archive = w.archive;
    })
