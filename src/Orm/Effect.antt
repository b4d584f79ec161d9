-- ===== src/Orm/Effect.antt =====
-- State and exceptions. The state comes back beside an exception too: what a call has done before
-- it raises stays done, unless a transaction rolls it back.
use bank_transaction_system.Base.{ℕ, String, Bool, true, false, Option, none, some, List}
use bank_transaction_system.Models.{Db, Table, Message}

-- `exc.orig.constraint_name` of an IntegrityError: the constraint that a row violates
pub data Constraint : Type 0 where
  primary_key foreign_key check : Constraint
  users_email users_national_id users_phone : Constraint
  accounts_user_id cards_number_hmac : Constraint

pub data Error : Type 0 where
  -- `HTTPException(status_code, detail)`
  http : ℕ → String → Error
  -- `sqlalchemy.exc.IntegrityError`
  integrity : Constraint → Error
  -- `sqlalchemy.exc.DataError`: a value that its column cannot hold
  data_error : Error
  -- `sqlalchemy.exc.MultipleResultsFound`
  multiple_results : Error
  -- `sqlalchemy.exc.InvalidRequestError`
  invalid_request : Error
  -- the exception of a failed `send_message`
  sqs_error : Error
  -- an attribute of `None`, a failed `assert`, a ValueError
  attribute_error assertion_error value_error : Error

pub data Result {ℓ} (A : Type ℓ) : Type ℓ where
  ok : A → Result A
  err : Error → Result A

-- What `background_tasks.add_task` is given: a function of the code, with its argument.
pub data Task : Type 0 where
  -- `_cleanup_expired_session`
  cleanup : ℕ → Task
  -- `_run_archive_in_background`, `_run_cron_in_background`, `_run_daily_backup_in_background`
  run_archive run_cron run_daily_backup : Task

-- The state of one AsyncSession: the rows it sees, whether a transaction is begun on it, and the
-- messages that SQS has accepted, which no rollback takes back. `background_tasks` are what
-- a request asks to be run after its response.
pub record Session : Type 0 where
  pub db : Db
  pub in_transaction : Bool
  pub sent : List Message
  pub background_tasks : List Task

abbrev pub Action : Type 0 → Type 0
Action A = Session → Result A × Session

module _ {A : Type 0} where
  abbrev pub pure : A → Action A
  pure a s = (ok a, s)

  abbrev pub raise : Error → Action A
  raise e s = (err e, s)

  abbrev pub or_raise : Option A → Error → Action A
  or_raise none e = raise e
  or_raise (some a) e = pure a

  abbrev pub lift : Result A → Action A
  lift r s = (r, s)

abbrev pub raise_if : Bool → Error → Action (Unit {0})
raise_if true e s = (err e, s)
raise_if false e s = (ok tt, s)

abbrev pub continue : {A B : Type 0} → Result A × Session → (A → Action B) → Result B × Session
continue (ok a, s) f = f a s
continue (err e, s) f = (err e, s)

infixl 5 ◌>>=◌ ◌>>◌
abbrev pub ◌>>=◌ : {A B : Type 0} → Action A → (A → Action B) → Action B
◌>>=◌ m f s = continue (m s) f

abbrev pub ◌>>◌ : {A B : Type 0} → Action A → Action B → Action B
m >> k = m >>= λ _. k

-- What a request finds outside the program: the clock, the random values that it draws (at most
-- one UUID for each table), the client, and whether SQS accepts a message. `commits` is what other
-- sessions commit at the points where `others_commit` stands.
pub record Env : Type 0 where
  pub now : ℕ
  pub uuid4 : Table → ℕ
  pub token_urlsafe : String
  pub gensalt : String
  pub client_host : Option String
  pub sqs_accepts : Message → Bool
  pub commits : Db → Db

-- What other sessions commit is seen by the statements that follow.
unfoldable pub others_commit : Env → Action (Unit {0})
others_commit env s = (ok tt, record s { db = env.commits s.db })

-- `try: ... except IntegrityError: ...`
abbrev pub on_integrity_error :
    {A : Type 0} → Result A × Session → (Constraint → Action A) → Result A × Session
on_integrity_error (err (integrity c), s) handler = handler c s
on_integrity_error (r, s) handler = (r, s)
