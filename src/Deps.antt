-- ===== src/Deps.antt =====
-- backend/app/deps.py
pub mod Cleanup
pub mod Roles
use bank_transaction_system.Base.{
  ℕ, String, Option, none, some, [], ◌∷◌, ◌++◌, not, ltb, str_eq, if◌then◌else◌,
}
use bank_transaction_system.Models.{User, UserRole, role_eq, UserSession, SessionEvent}
use bank_transaction_system.Platform.{Platform, hash_session_token}
use bank_transaction_system.Orm.{
  Error, Result, ok, err, http, Session, Action, Env, cleanup, pure, raise, or_raise, lift, ◌>>=◌,
  ◌>>◌, Orm, begin, commit,
}
use bank_transaction_system.Crud.Users as Rows
use bank_transaction_system.Crud.Audit
use bank_transaction_system.Services.Auth.{is_ip_blocked, token_hash_of}

abbrev pub invalid_session : Error
invalid_session = http 401 "Invalid or expired session. Please log in again."

abbrev pub session_expired : Error
session_expired = http 401 "Session expired. Please log in again."

abbrev pub user_missing : Error
user_missing = http 401 "User not found."

abbrev pub admin_required : Error
admin_required = http 401 "Admin privileges required"

abbrev pub ip_mismatch : Error
ip_mismatch = http 403 "Request IP does not match the registered IP."

abbrev pub customer_missing : Error
customer_missing = http 401 "Customer user not found."

abbrev pub forbidden : Error
forbidden = http 403 "Forbidden."

-- `background_tasks.add_task(_cleanup_expired_session, user_id)`
unfoldable pub add_cleanup : ℕ → Action (Unit {0})
add_cleanup user_id s =
    (ok tt, record s { background_tasks = s.background_tasks ++ (cleanup user_id ∷ []) })

module _ ⦃orm : Orm⦄ where
  -- The body of the `async with db.begin()` of `_cleanup_expired_session`.
  unfoldable pub expire_session : Env → ℕ → Action (Unit {0})
  expire_session env user_id = do
    session ← Audit.get_by_user_id user_id
    Audit.delete user_id
    Audit.create_history env user_id SessionEvent.expired (token_hash_of session) none
    pure tt

  -- A failure is logged and dropped.
  unfoldable pub cleanup_expired_session : Env → ℕ → Session → Session
  cleanup_expired_session env user_id s = (begin (expire_session env user_id) s).1

  -- The user of a session that is not over.
  unfoldable pub load_user : UserSession → Action User
  load_user session = do
    found ← Rows.get session.user_id
    user ← or_raise found user_missing
    commit
    pure user

  unfoldable pub check_expiry : Env → UserSession → Action User
  check_expiry env session =
      if ltb session.expires_at env.now
      then (add_cleanup session.user_id >> raise session_expired)
      else load_user session

  unfoldable pub get_current_user : ⦃p : Platform⦄ → Env → String → Action User
  get_current_user env token = do
    found ← Audit.get_by_token_hash (hash_session_token token)
    session ← or_raise found invalid_session
    check_expiry env session

-- `user` is what `get_current_user` gave.
unfoldable pub get_current_admin : Env → User → Result User
get_current_admin env user =
    if not (role_eq user.role UserRole.admin)
    then err admin_required
    else if is_ip_blocked user.registered_ip env.client_host
    then err ip_mismatch
    else ok user

unfoldable pub get_current_customer : User → Result User
get_current_customer user =
    if not (role_eq user.role UserRole.customer) then err customer_missing else ok user

-- `x_internal_api_key or ""`
abbrev pub provided : Option String → String
provided none = ""
provided (some key) = key

unfoldable pub verify_internal_api_key : ⦃p : Platform⦄ → Option String → Result (Unit {0})
verify_internal_api_key ⦃p⦄ key =
    if str_eq p.internal_service_api_key (provided key) then ok tt else err forbidden

module _ ⦃orm : Orm⦄ ⦃p : Platform⦄ where
  -- `CustomerDep`, `AdminDep` and `InternalAuthDep`
  unfoldable pub customer_dep : Env → String → Action User
  customer_dep env token = do user ← get_current_user env token; lift (get_current_customer user)

  unfoldable pub admin_dep : Env → String → Action User
  admin_dep env token = do user ← get_current_user env token; lift (get_current_admin env user)

unfoldable pub internal_auth_dep : ⦃p : Platform⦄ → Option String → Action (Unit {0})
internal_auth_dep key = lift (verify_internal_api_key key)
