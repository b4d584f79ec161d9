-- ===== src/Services/Backup/RoundTrip.antt =====
-- The URLs that `_parse_db_url_for_pg_dump` (backend/app/services/backup_service.py) reads, written
-- from their parts.
use bank_transaction_system.Base.{
  ℕ, ◌≡◌, refl, Bool, true, false, Option, none, some, [], ◌∷◌, ◌++◌, ==_refl,
}
use bank_transaction_system.Base.Rows.{All}
use bank_transaction_system.Base.Text.{Text, codes, span}
use bank_transaction_system.Services.Backup.Url.{
  after, and_then, nonempty, colon, at_sign, slash, not_colon, not_colon_at, not_at,
  not_colon_slash, not_question, plain, strip_driver, clean, skip_password, read_port, match, Match,
  pg_dump_args, parse_db_url_for_pg_dump,
}

pub record DbUrl : Type 0 where
  pub driver : Option Text
  pub user : Text
  pub password : Option Text
  pub host : Text
  pub port : Option Text
  pub dbname : Text
  pub query : Option Text

-- Each part stands before what follows it.
abbrev pub write_scheme : Option Text → Text → Text
write_scheme none rest = plain ++ rest
write_scheme (some driver) rest = codes "postgresql+" ++ (driver ++ (codes "://" ++ rest))

abbrev pub write_password : Option Text → Text → Text
write_password none rest = at_sign ∷ rest
write_password (some password) rest = colon ∷ password ++ (at_sign ∷ rest)

abbrev pub write_port : Option Text → Text → Text
write_port none rest = slash ∷ rest
write_port (some port) rest = colon ∷ port ++ (slash ∷ rest)

abbrev pub write_query : Option Text → Text
write_query none = []
write_query (some query) = b'?' ∷ query

abbrev pub write_address : DbUrl → Text
write_address u = u.host ++ write_port u.port (u.dbname ++ write_query u.query)

abbrev pub write_login : DbUrl → Text
write_login u = u.user ++ write_password u.password (write_address u)

abbrev pub write_url : DbUrl → Text
write_url u = write_scheme u.driver (write_login u)

-- A run of characters with `p`, one at least.
abbrev pub IsRun : (ℕ → Bool) → Text → Type 0
IsRun p [] = ⊥
IsRun p (c ∷ s) = All (λ d. p d ≡ true) (c ∷ s)

-- An optional part.
abbrev pub IfSet : (Text → Type 0) → Option Text → Type 0
IfSet P none = Unit
IfSet P (some s) = P s

-- The characters that a part may have.
pub record IsUrl (is_digit : ℕ → Bool) (u : DbUrl) : Type 0 where
  pub driver : IfSet (IsRun not_colon) u.driver
  pub user : IsRun not_colon_at u.user
  pub password : IfSet (All (λ c. not_at c ≡ true)) u.password
  pub host : IsRun not_colon_slash u.host
  pub port : IfSet (IsRun is_digit) u.port
  pub dbname : IsRun not_question u.dbname

-- What ends a run.
abbrev Stops : (ℕ → Bool) → Text → Type 0
Stops p [] = Unit
Stops p (c ∷ s) = p c ≡ false

span-stop : (p : ℕ → Bool) (rest : Text) → Stops p rest → span p rest ≡ ([], rest)
unfolding span
span-stop p [] h = refl
span-stop p (c ∷ s) h = rw h

span-run :
    (p : ℕ → Bool) (run rest : Text)
    → All (λ c. p c ≡ true) run
    → Stops p rest
    → span p (run ++ rest) ≡ (run, rest)
unfolding span
span-run p [] rest h stop = span-stop p rest stop
span-run p (c ∷ run) rest h stop = rw (h.0) (rw (span-run p run rest h.1 stop))

nonempty-run :
    (p : ℕ → Bool) (run rest : Text)
    → IsRun p run
    → Stops p rest
    → nonempty (span p (run ++ rest)) ≡ some (run, rest)
nonempty-run p [] rest h stop = elim h [ ]
nonempty-run p (c ∷ run) rest h stop = rw (span-run p (c ∷ run) rest h stop)

after-++ : (cs s : Text) → after cs (cs ++ s) ≡ some s
unfolding after
after-++ [] s = refl
after-++ (c ∷ cs) s = rw (==_refl c) (after-++ cs s)

strip-driver :
    (driver rest : Text)
    → IsRun not_colon driver
    → strip_driver (write_scheme (some driver) rest) ≡ some rest
unfolding strip_driver after and_then
strip-driver driver rest h = rw (nonempty-run not_colon driver (codes "://" ++ rest) h refl)

clean-scheme :
    (driver : Option Text) (rest : Text)
    → IfSet (IsRun not_colon) driver
    → clean (write_scheme driver rest) ≡ plain ++ rest
unfolding clean strip_driver after and_then
clean-scheme none rest h = refl
clean-scheme (some driver) rest h = rw (clean, strip-driver driver rest h)

skip-password :
    (password : Option Text) (rest : Text)
    → IfSet (All (λ c. not_at c ≡ true)) password
    → skip_password (write_password password rest) ≡ some rest
unfolding skip_password after
skip-password none rest h = refl
skip-password (some password) rest h = rw (span-run not_at password (at_sign ∷ rest) h refl)

password-Stops :
    (password : Option Text) (rest : Text) → Stops not_colon_at (write_password password rest)
password-Stops none rest = refl
password-Stops (some password) rest = refl

port-Stops : (port : Option Text) (rest : Text) → Stops not_colon_slash (write_port port rest)
port-Stops none rest = refl
port-Stops (some port) rest = refl

query-Stops : (query : Option Text) → Stops not_question (write_query query)
query-Stops none = tt
query-Stops (some query) = refl

read-port :
    (is_digit : ℕ → Bool) (port : Option Text) (rest : Text)
    → is_digit slash ≡ false
    → IfSet (IsRun is_digit) port
    → read_port is_digit (write_port port rest) ≡ some (port, rest)
unfolding read_port after and_then
read-port is_digit none rest end h = refl
read-port is_digit (some port) rest end h = rw (nonempty-run is_digit port (slash ∷ rest) h end)

-- The parts of a URL, as `re.match` gives them.
abbrev pub parts : DbUrl → Match
parts u = record { user = u.user; host = u.host; port = u.port; dbname = u.dbname }

match-login :
    (is_digit : ℕ → Bool) (u : DbUrl)
    → is_digit slash ≡ false
    → IsUrl is_digit u
    → match is_digit (plain ++ write_login u) ≡ some (parts u)
unfolding match and_then
match-login is_digit u end h = simp (
  after-++ plain (write_login u),
  nonempty-run not_colon_at u.user (write_password u.password (write_address u)) h.user
      (password-Stops u.password (write_address u)),
  skip-password u.password (write_address u) h.password,
  nonempty-run not_colon_slash u.host (write_port u.port (u.dbname ++ write_query u.query)) h.host
      (port-Stops u.port (u.dbname ++ write_query u.query)),
  read-port is_digit u.port (u.dbname ++ write_query u.query) end h.port,
  nonempty-run not_question u.dbname (write_query u.query) h.dbname (query-Stops u.query),
)

-- Where `/` is no digit: a database URL that is written from a user, a host, a port, a database
-- name, and a driver, a password and a query that may be absent, none of which has a character
-- that ends it, is parsed back to the arguments of pg_dump for its host, port (5432 if it has
-- none), user and database.
pub parse-write :
    (is_digit : ℕ → Bool) (u : DbUrl)
    → is_digit slash ≡ false
    → IsUrl is_digit u
    → parse_db_url_for_pg_dump is_digit (write_url u) ≡ some (pg_dump_args (parts u))
unfolding parse_db_url_for_pg_dump and_then
parse-write is_digit u end h =
    simp (clean-scheme u.driver (write_login u) h.driver, match-login is_digit u end h)
