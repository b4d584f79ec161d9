-- ===== src/Services/Auth/Login.antt =====
-- A login that succeeds, and the requests and the logout that follow it
-- (backend/app/services/auth_service.py and backend/app/deps.py).
use bank_transaction_system.Base.{
  ◌+◌, String, ◌≡◌, refl, Bool, true, false, Option, some, [], ◌∷◌, ◌++◌, ◌==◌, ==_refl,
}
use bank_transaction_system.Base.Rows.{select, exists_row, select_first_exists}
use bank_transaction_system.Models.{
  User, UserRole, role_eq, UserSession, AuditLog, AuditLogAction, SessionEvent, SessionHistory, Db,
}
use bank_transaction_system.Platform.{Platform, verify_password, hash_session_token}
use bank_transaction_system.Orm.{ok, Session, Env, Orm}
use bank_transaction_system.Crud.Users as Rows
use bank_transaction_system.Crud.Audit
use bank_transaction_system.Crud.Audit.{
  has_user, has_token, new_session, insert_audit_log, new_audit_log, insert_history, new_history,
}
use bank_transaction_system.Services.Auth.{
  is_ip_blocked, session_ttl, accept, authenticate_user, note_blocked, identify, open_session,
  start_session, login,
}
use bank_transaction_system.Services.Auth.Refusals.{not_both, logged, accepts}
use bank_transaction_system.Services.Auth.Sessions.{
  rows_of, session_after, upserted, with_sessions, upsert_ok, session_upserted,
}

pub audit_ok :
    (e : AuditLog) (d : Db)
    → exists_row (λ (x : AuditLog). x.id == e.id) d.audit_logs ≡ false
    → exists_row (Rows.has_id e.user_id) d.users ≡ true
    → insert_audit_log e d ≡ ok (e, logged e d)
unfolding insert_audit_log
audit_ok e d fresh known = rw fresh (rw known)

abbrev pub recorded : SessionHistory → Db → Db
recorded e d = record d { session_history = d.session_history ++ (e ∷ []) }

pub history_ok :
    (e : SessionHistory) (d : Db)
    → exists_row (λ (x : SessionHistory). x.id == e.id) d.session_history ≡ false
    → exists_row (Rows.has_id e.user_id) d.users ≡ true
    → insert_history e d ≡ ok (e, recorded e d)
unfolding insert_history
history_ok e d fresh known = rw fresh (rw known)

module _ ⦃p : Platform⦄ (env : Env) (user : User) where
  -- The rows that a login writes.
  abbrev pub opened : UserSession
  opened =
      new_session env user.id (hash_session_token env.token_urlsafe) (env.now + session_ttl)
        env.client_host

  abbrev pub login_entry : AuditLog
  login_entry = new_audit_log env user.id AuditLogAction.login env.client_host

  abbrev pub login_event : SessionHistory
  login_event =
      new_history env user.id SessionEvent.login (hash_session_token env.token_urlsafe)
        env.client_host

  -- The database after a login: an entry of the log, the user's session, an event of its history.
  abbrev pub logged_in : Option UserSession → Db → Db
  logged_in prior d =
      recorded login_event (with_sessions (upserted prior opened d.sessions) (logged login_entry d))

  -- The identifiers that were drawn are new.
  pub record IsFresh (d : Db) : Type 0 where
    pub log : exists_row (λ (x : AuditLog). x.id == login_entry.id) d.audit_logs ≡ false
    pub session : exists_row (λ (x : UserSession). x.id == opened.id) d.sessions ≡ false
    pub event :
        exists_row (λ (x : SessionHistory). x.id == login_event.id) d.session_history ≡ false

module _ ⦃orm : Orm⦄ ⦃p : Platform⦄ (env : Env) (email password : String) (role : UserRole)
    (s : Session) (idle : s.in_transaction ≡ false) (user : User) (prior : Option UserSession)
    (found : select (Rows.has_email email) s.db.users ≡ user ∷ [])
    (accepted : accepts password role user ≡ true)
    (allowed : is_ip_blocked user.registered_ip env.client_host ≡ false)
    (had : select (has_user user.id) s.db.sessions ≡ rows_of prior)
    (fresh : IsFresh env user s.db) where
  known : exists_row (Rows.has_id user.id) s.db.users ≡ true
  known =
      select_first_exists (Rows.has_email email) (Rows.has_id user.id) s.db.users found
        (==_refl user.id)

  open_session_lem : open_session env user (record s { in_transaction = true }) ≡ (
    ok (some (session_after prior (opened env user))),
    record s { db = logged_in env user prior s.db; in_transaction = true },
  )
  unfolding open_session
  open_session_lem = simp (
    Audit.create_audit_log_lem,
    audit_ok (login_entry env user) s.db fresh.log known,
    Audit.upsert_lem,
    upsert_ok prior (opened env user) (logged (login_entry env user) s.db) had fresh.session known,
    Audit.create_history_lem,
    history_ok (login_event env user)
        (with_sessions (upserted prior (opened env user) s.db.sessions)
          (logged (login_entry env user) s.db))
        fresh.event known,
    Audit.get_by_user_id_lem,
    session_upserted prior (opened env user) s.db.sessions had,
  )

  pub login_opens_session : login env email password role s ≡ (
    ok (session_after prior (opened env user), env.token_urlsafe),
    record s { db = logged_in env user prior s.db; in_transaction = false },
  )
  unfolding login identify authenticate_user accept note_blocked start_session
  login_opens_session =
      rw (orm.begin_idle (User × Bool) (identify env email password role) s idle) (
        simp
          (
            Rows.get_by_email_lem,
            found,
            not_both (verify_password password user.password_hash) (role_eq user.role role) true
                accepted,
            allowed,
          )
          (rw
            (orm.begin_idle (Option UserSession) (open_session env user)
              (record s { in_transaction = false }) refl)
            (rw open_session_lem)))
