-- ===== src/Services/Auth.antt =====
-- backend/app/services/auth_service.py
pub mod Refusals
pub mod Sessions
pub mod Login
pub mod Requests
pub mod Logout
pub mod Replaced
use bank_transaction_system.Base.{
  ℕ, ◌+◌, ◌*◌, String, Bool, true, false, Option, none, some, not, ◌&&◌, ◌||◌, str_eq,
  if◌then◌else◌,
}
use bank_transaction_system.Models.{
  User, UserRole, role_eq, UserSession, AuditLogAction, SessionEvent,
}
use bank_transaction_system.Platform.{Platform, verify_password, hash_session_token}
use bank_transaction_system.Orm.{
  Error, http, Action, Env, pure, raise, or_raise, raise_if, ◌>>=◌, ◌>>◌, Orm, begin,
}
use bank_transaction_system.Crud.Users as Rows
use bank_transaction_system.Crud.Audit

abbrev pub invalid_credentials : Error
invalid_credentials = http 401 "Invalid credentials."

abbrev pub ip_rejected : Error
ip_rejected = http 403 "Login rejected: request IP does not match the registered IP."

abbrev pub session_missing : Error
session_missing = http 500 "Session could not be retrieved after creation."

-- `_SESSION_TTL_MINUTES`, in microseconds
abbrev pub session_ttl : ℕ
session_ttl = 15 * 60 * 1000000

abbrev pub dummy_hash : String
dummy_hash = "$2b$12$invalidhashpadding000000000000000000000000000000000000"

-- Whether a text is truthy, and whether the client's address is it.
abbrev pub is_empty : String → Bool
is_empty String.[] = true
is_empty (String.◌∷◌ c s) = false

abbrev pub is_host : Option String → String → Bool
is_host none ip = false
is_host (some host) ip = str_eq host ip

-- `user.registered_ip and ip != user.registered_ip`
abbrev pub is_ip_blocked : Option String → Option String → Bool
is_ip_blocked none ip = false
is_ip_blocked (some registered) ip = not (is_empty registered) && not (is_host ip registered)

module _ ⦃orm : Orm⦄ ⦃p : Platform⦄ where
  -- `if user is None or not password_ok or user.role != role`
  unfoldable pub accept : String → UserRole → Option User → Action User
  accept password role none =
      let password_ok = verify_password password dummy_hash in raise invalid_credentials
  accept password role (some user) =
      if not (verify_password password user.password_hash) || not (role_eq user.role role)
      then raise invalid_credentials
      else pure user

  unfoldable pub authenticate_user : String → String → UserRole → Action User
  authenticate_user email password role = do
    found ← Rows.get_by_email email
    accept password role found

  -- The failed login is recorded if the address is not the registered one.
  unfoldable pub note_blocked : Env → User → Bool → Action (User × Bool)
  note_blocked env user true = do
    Audit.create_audit_log env user.id AuditLogAction.login_failed env.client_host
    pure (user, true)
  note_blocked env user false = pure (user, false)

  -- The body of the first `async with` of `login`.
  unfoldable pub identify : Env → String → String → UserRole → Action (User × Bool)
  identify env email password role = do
    user ← authenticate_user email password role
    note_blocked env user (is_ip_blocked user.registered_ip env.client_host)

  -- The body of the second.
  unfoldable pub open_session : Env → User → Action (Option UserSession)
  open_session env user = do
    Audit.create_audit_log env user.id AuditLogAction.login env.client_host
    Audit.upsert env user.id (hash_session_token env.token_urlsafe) (env.now + session_ttl)
        env.client_host
    Audit.create_history env user.id SessionEvent.login (hash_session_token env.token_urlsafe)
        env.client_host
    Audit.get_by_user_id user.id

  unfoldable pub start_session : Env → User × Bool → Action (UserSession × String)
  start_session env (user, blocked) = do
    raise_if blocked ip_rejected
    found ← begin (open_session env user)
    session ← or_raise found session_missing
    pure (session, env.token_urlsafe)

  unfoldable pub login : Env → String → String → UserRole → Action (UserSession × String)
  login env email password role = do
    identified ← begin (identify env email password role)
    start_session env identified

-- `session.token_hash if session is not None else ""`
abbrev pub token_hash_of : Option UserSession → String
token_hash_of none = ""
token_hash_of (some session) = session.token_hash

module _ ⦃orm : Orm⦄ where
  -- The body of the `async with` of `logout`.
  unfoldable pub close_session : Env → User → Action (Unit {0})
  close_session env user = do
    session ← Audit.get_by_user_id user.id
    Audit.create_audit_log env user.id AuditLogAction.logout env.client_host
    Audit.delete user.id
    Audit.create_history env user.id SessionEvent.logout (token_hash_of session) env.client_host
    pure tt

  unfoldable pub logout : Env → User → Action (Unit {0})
  logout env user = begin (close_session env user)
