-- ===== src/System/Sessions.antt =====
-- What the sessions' operations write: backend/app/services/auth_service.py and backend/app/deps.py.
use bank_transaction_system.Base.{ℕ, String, ◌≡◌, Bool, true, false, Option, none, some, ◌==◌}
use bank_transaction_system.Base.Rows.{delete_rows}
use bank_transaction_system.Models.{User, UserRole, UserSession, AuditLogAction, SessionEvent, Db}
use bank_transaction_system.Platform.{Platform}
use bank_transaction_system.Orm.{Session, Env, Orm}
use bank_transaction_system.Orm.Relates.{
  Relates, Relates-pure, Relates-bind, Relates-execute, Relates-begin,
}
use bank_transaction_system.Crud.Users as Rows
use bank_transaction_system.Crud.Audit
use bank_transaction_system.Services.Auth.{
  accept, authenticate_user, note_blocked, identify, open_session, start_session, login,
  close_session, logout,
}
use bank_transaction_system.Deps.{
  add_cleanup, expire_session, cleanup_expired_session, load_user, check_expiry, get_current_user,
  customer_dep, admin_dep,
}
use bank_transaction_system.Crud.Reads.{select_one-kept}
use bank_transaction_system.System.Statements.{Respects, action_rules}

module _ {R : Db → Db → Type 0} (k : Respects R) ⦃orm : Orm⦄ where
  create_audit_log-related :
      (env : Env) (u : ℕ) (a : AuditLogAction) (ip : Option String)
      → Relates R (Audit.create_audit_log env u a ip)
  unfolding Audit.create_audit_log
  create_audit_log-related env u a ip = Relates-execute k.pre _ (k.logged _)

  upsert-related :
      (env : Env) (u : ℕ) (h : String) (at : ℕ) (ip : Option String)
      → Relates R (Audit.upsert env u h at ip)
  unfolding Audit.upsert
  upsert-related env u h at ip = Relates-execute k.pre _ (k.upserted _)

  create_history-related :
      (env : Env) (u : ℕ) (e : SessionEvent) (h : String) (ip : Option String)
      → Relates R (Audit.create_history env u e h ip)
  unfolding Audit.create_history
  create_history-related env u e h ip = Relates-execute k.pre _ (k.recorded _)

  get_by_user_id-related : (u : ℕ) → Relates R (Audit.get_by_user_id u)
  unfolding Audit.get_by_user_id
  get_by_user_id-related u = select_one-kept k.pre _

  get_by_token_hash-related : (h : String) → Relates R (Audit.get_by_token_hash h)
  unfolding Audit.get_by_token_hash
  get_by_token_hash-related h = select_one-kept k.pre _

  get_by_email-related : (e : String) → Relates R (Rows.get_by_email e)
  unfolding Rows.get_by_email
  get_by_email-related e = select_one-kept k.pre _

  get_user-related : (i : ℕ) → Relates R (Rows.get i)
  unfolding Rows.get
  get_user-related i = select_one-kept k.pre _

  delete_found-related : (o : Option UserSession) → Relates R (Audit.delete_found o)
  unfolding Audit.delete_found
  delete_found-related none = record { at = λ s. k.pre.reflexive s.db }
  delete_found-related (some row) = Relates-execute k.pre _ (λ a d d' e.
      let same : record d {
        sessions = delete_rows (λ (x : UserSession). x.id == row.id) d.sessions;
      }
          ≡ d' =
        cc in
      rw (← same) (k.deleted row d))

  delete-related : (u : ℕ) → Relates R (Audit.delete u)
  unfolding Audit.delete
  delete-related u = Relates-bind k.pre _ _ (get_by_user_id-related u) delete_found-related

  ruleset session_rules = (
    action_rules, create_audit_log-related, upsert-related, create_history-related,
    get_by_user_id-related, get_by_token_hash-related, get_by_email-related, get_user-related,
    delete-related,
  )

  add_cleanup-related : (u : ℕ) → Relates R (add_cleanup u)
  unfolding add_cleanup
  add_cleanup-related u = record { at = λ s. k.pre.reflexive s.db }

  pub logout-related : (env : Env) (user : User) → Relates R (logout env user)
  unfolding logout close_session
  logout-related env user = search (k.pre, session_rules) depth 12

  expire_session-related : (env : Env) (u : ℕ) → Relates R (expire_session env u)
  unfolding expire_session
  expire_session-related env u = search (k.pre, session_rules) depth 12

  pub cleanup-related :
      (env : Env) (u : ℕ) (s : Session) → R s.db (cleanup_expired_session env u s).db
  unfolding cleanup_expired_session
  cleanup-related env u s =
      (Relates-begin k.pre (expire_session env u) (expire_session-related env u)).at s

  module _ ⦃p : Platform⦄ where
    accept-related :
        (password : String) (role : UserRole) (o : Option User) → Relates R (accept password role o)
    unfolding accept
    accept-related password role none = search (k.pre, session_rules)
    accept-related password role (some user) = search (k.pre, session_rules)

    note_blocked-related :
        (env : Env) (user : User) (b : Bool) → Relates R (note_blocked env user b)
    unfolding note_blocked
    note_blocked-related env user true = search (k.pre, session_rules)
    note_blocked-related env user false = Relates-pure k.pre _

    identify-related :
        (env : Env) (email password : String) (role : UserRole)
        → Relates R (identify env email password role)
    unfolding identify authenticate_user
    identify-related env email password role =
        search (k.pre, session_rules, accept-related, note_blocked-related)

    open_session-related : (env : Env) (user : User) → Relates R (open_session env user)
    unfolding open_session
    open_session-related env user = search (k.pre, session_rules) depth 12

    start_session-related :
        (env : Env) (identified : User × Bool) → Relates R (start_session env identified)
    unfolding start_session
    start_session-related env (user, blocked) =
        search (k.pre, session_rules, open_session-related) depth 12

    pub login-related :
        (env : Env) (email password : String) (role : UserRole)
        → Relates R (login env email password role)
    unfolding login
    login-related env email password role =
        search (k.pre, session_rules, identify-related, start_session-related)

    load_user-related : (session : UserSession) → Relates R (load_user session)
    unfolding load_user
    load_user-related session = search (k.pre, session_rules)

    pub get_current_user-related :
        (env : Env) (token : String) → Relates R (get_current_user env token)
    unfolding get_current_user check_expiry
    get_current_user-related env token =
        search (k.pre, session_rules, load_user-related, add_cleanup-related)

    pub customer_dep-related : (env : Env) (token : String) → Relates R (customer_dep env token)
    unfolding customer_dep
    customer_dep-related env token = search (k.pre, session_rules, get_current_user-related)

    pub admin_dep-related : (env : Env) (token : String) → Relates R (admin_dep env token)
    unfolding admin_dep
    admin_dep-related env token = search (k.pre, session_rules, get_current_user-related)
