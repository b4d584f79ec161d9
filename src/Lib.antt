-- ===== src/Lib.antt =====
-- The bank transaction system: a FastAPI backend (backend/app) over PostgreSQL. Customers pay with
-- cards; a payment is settled at once, scheduled, or queued for an international worker. Admins
-- see all transactions. Internal jobs process what falls due and archive what is final.
--
-- Parts and modules. The files are named after the code's:
-- - Base: shared names; Base.Rows, a table as a list of rows, with the operations of SQL that the
--   code uses; Base.Int, signed integers over the native numbers. A Decimal has four places and is
--   the integer of its ten-thousandths. UUIDs and timestamps are only compared, and are numbers.
-- - Models (backend/app/models): a record for each table, and `Db`, a list of rows for each.
-- - Schemas (backend/app/schemas): the fields of the payloads and the responses, and in
--   Schemas.Validators what the validators of cards and transactions accept.
-- - Orm: SQLAlchemy's AsyncSession. A function of the code is an `Action`: a `Session` in, a
--   result or an exception and a `Session` out. `record Orm` has execute, scalar_one_or_none,
--   begin and commit as parameters, with their documented behaviour as laws: an execution begins a
--   transaction, a statement that fails writes nothing, a second `begin` raises
--   InvalidRequestError, and the end of `async with db.begin()` commits, or rolls back and raises.
-- - Crud (backend/app/crud): each method is a query or a statement on `Db`. An insertion checks
--   the constraints of its table (keys, references, CHECKs, DECIMAL(19, 4), BIGINT) and fails with
--   the one that is violated. `Crud.Written` says what a statement that succeeds has written, and
--   `Crud.Reads` that a read writes nothing.
-- - Platform (backend/app/core/security.py): hashlib, hmac and bcrypt are parameters; bcrypt may
--   refuse a password, and its law is that a password that has a hash passes against it.
-- - Services (backend/app/services): Services.Transactions is the decision tree of
--   create_transaction, process_scheduled_transaction and _process_national; Services.Cards is
--   _resolve_card; Services.Queries the read-only functions; Services.Queue the SQS call;
--   Services.Users, Services.Auth and Services.Archive the services of these names. The body of an
--   `async with` is a function of its own, and so is each branch that is named in a comment.
--   Services.Backup is backup_service.py, with the file system, pg_dump, RDS and the date as a
--   `Host`; its texts are lists of code points.
-- - Services.Transactions.Ledger: an independent account of the money, the balance of an account
--   and the sum of its COMPLETED debits, with what each step of a payment takes from it.
-- - Deps (backend/app/deps.py): who a request is from. Api (backend/app/api/api_v1/endpoints): the
--   endpoints, each with its dependency, its service and its response, and the background tasks.
-- - Integrity: what it means for a database to keep the keys, references and checks of
--   backend/app/models, and that each statement keeps them.
-- - System: the whole program. `Request` has a constructor for each endpoint and each background
--   task, `serve` is the session that is left, and `Steps` a run of requests in which other
--   sessions commit runs of requests at the points that `Env` allows. A relation that every
--   statement respects (`Respects`) holds over a run; the deposit's statement is apart
--   (`Credits`), for runs without deposits.
-- - Core: ALLOWED_ORIGINS of backend/app/core/config.py. Utils: backend/utils/validators.py.
--   Scripts: backend/scripts/seed_admin.py.
-- - Tests: a serial session, a small bank, and an input for each result.
--
-- The world outside is an `Env`: the clock, the random draws (at most one UUID for each table in a
-- call), the client's address, whether SQS accepts a message, and `commits`, what other sessions
-- commit at the points where the code guards against a race: between a check and the insertion
-- that may violate a unique column, and after such an insertion is refused. Nothing is committed
-- by others elsewhere in a request: not between the load of a known card's account and its row
-- lock, and not while the archive is written. So the instance of an account in the identity map is
-- the row as it stands, and `get_with_lock` reads the row; the account of a new card, which is
-- loaded before the insertion, is taken to be read afresh, since nothing holds its instance when
-- _resolve_card has returned. Services.Transactions.Stale has the identity map, and the debit of
-- an account that another session has changed since it was loaded. The results on the ledger are
-- on `SerialSteps`, runs in which other sessions commit nothing. After a rollback the user of the
-- request is expired, and reading it raises; the model has this where the code does it, in
-- _resolve_card. Rows of one creation time stay in the table's order, which PostgreSQL leaves
-- open. Messages that SQS has accepted are kept apart from the database, since no rollback takes
-- them back. A rollback gives back the database that its `begin` found; what others have committed
-- since is then as if they came after, which a run of `Steps` may add. Changes of an attribute and
-- deletions are written where they are made; the code's session writes them with the next flush,
-- before which it reads nothing that they touch.
--
-- Bounds: balances and amounts are checked against DECIMAL(19, 4) where they are stored, and the
-- numbers of users against BIGINT where they are looked up or stored. There is no fuel: every loop
-- is over the rows of a table.
--
-- Not modelled: the FastAPI application, its other settings, rate limits and logging (a task that
-- is added runs as a request of its own); migrations; the validators of users' payloads but the
-- email's; the bounds of the list queries; lengths of texts. The details of an HTTPException leave
-- out the identifier that the code quotes, and a lower-case email is taken as the validator leaves
-- it.
pub mod Base
pub mod Models
pub mod Schemas
pub mod Orm
pub mod Crud
pub mod Integrity
pub mod Platform
pub mod Services
pub mod Deps
pub mod Api
pub mod System
pub mod Scripts
pub mod Utils
pub mod Core
pub mod Tests
