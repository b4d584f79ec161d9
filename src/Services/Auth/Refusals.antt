-- ===== src/Services/Auth/Refusals.antt =====
-- Logins that are refused (backend/app/services/auth_service.py).
use bank_transaction_system.Base.{
  String, ◌≡◌, refl, Bool, true, false, not, ◌&&◌, ◌||◌, List, [], ◌∷◌, ◌++◌, arith,
}
use bank_transaction_system.Base.Rows.{select}
use bank_transaction_system.Models.{User, UserRole, role_eq, AuditLog, AuditLogAction, Db}
use bank_transaction_system.Platform.{Platform, verify_password}
use bank_transaction_system.Orm.{ok, err, Session, Env, Orm}
use bank_transaction_system.Crud.Users as Rows
use bank_transaction_system.Crud.Audit
use bank_transaction_system.Crud.Audit.{insert_audit_log, new_audit_log}
use bank_transaction_system.Services.Auth.{
  is_ip_blocked, accept, authenticate_user, note_blocked, identify, start_session, login,
  invalid_credentials, ip_rejected,
}

pub not_both : (a b c : Bool) → (a && b) ≡ c → (not a || not b) ≡ not c
not_both a b c h = ground arith

-- The database with an entry in the audit log.
abbrev pub logged : AuditLog → Db → Db
logged e d = record d { audit_logs = d.audit_logs ++ (e ∷ []) }

-- The password is the user's, and the role is the one asked for.
abbrev pub accepts : ⦃p : Platform⦄ → String → UserRole → User → Bool
accepts password role user = verify_password password user.password_hash && role_eq user.role role

-- No user has the email, or the one who has it is not accepted.
abbrev pub Refuses : ⦃p : Platform⦄ → String → UserRole → List User → Type 0
Refuses password role [] = Unit
Refuses password role (user ∷ []) = accepts password role user ≡ false
Refuses password role (user ∷ other ∷ users) = ⊥

module _ ⦃orm : Orm⦄ ⦃p : Platform⦄ (env : Env) (email password : String) (role : UserRole)
    (s : Session) (idle : s.in_transaction ≡ false) where
  refused_lem :
      (found : List User)
      → select (Rows.has_email email) s.db.users ≡ found
      → Refuses password role found
      → login env email password role s ≡ (err invalid_credentials, s)
  unfolding login identify authenticate_user accept
  refused_lem [] e h =
      rw (orm.begin_idle (User × Bool) (identify env email password role) s idle)
        (simp (Rows.get_by_email_lem, e) (rw (← idle)))
  refused_lem (user ∷ []) e h =
      rw (orm.begin_idle (User × Bool) (identify env email password role) s idle) (
        simp
          (
            Rows.get_by_email_lem,
            e,
            not_both (verify_password password user.password_hash) (role_eq user.role role) false h,
          )
          (rw (← idle)))
  refused_lem (user ∷ other ∷ users) e h = elim h [ ]

  -- On a session without a transaction, an unknown email, a wrong password and a wrong role are
  -- answered alike, with 401, and leave the database as it is: no entry of the audit log is
  -- written.
  pub login_refused :
      Refuses password role (select (Rows.has_email email) s.db.users)
      → login env email password role s ≡ (err invalid_credentials, s)
  login_refused h = refused_lem (select (Rows.has_email email) s.db.users) refl h

  -- On a session without a transaction, a login with the right email, password and role, from
  -- another address than the registered one, is answered 403 where the audit log admits the entry.
  -- It opens no session, and the failed login is kept in the audit log.
  pub login_blocked :
      (user : User)
      → select (Rows.has_email email) s.db.users ≡ user ∷ []
      → accepts password role user ≡ true
      → is_ip_blocked user.registered_ip env.client_host ≡ true
      → insert_audit_log
          (new_audit_log env user.id AuditLogAction.login_failed env.client_host)
          s.db
        ≡ ok (
          new_audit_log env user.id AuditLogAction.login_failed env.client_host,
          logged (new_audit_log env user.id AuditLogAction.login_failed env.client_host) s.db,
        )
      → login env email password role s ≡ (
        err ip_rejected,
        record s {
          db = logged (new_audit_log env user.id AuditLogAction.login_failed env.client_host) s.db;
          in_transaction = false;
        },
      )
  unfolding login identify authenticate_user accept note_blocked start_session
  login_blocked user e accepted blocked inserted =
      rw (orm.begin_idle (User × Bool) (identify env email password role) s idle) (
        simp (
          Rows.get_by_email_lem,
          e,
          not_both (verify_password password user.password_hash) (role_eq user.role role) true
              accepted,
          blocked,
          Audit.create_audit_log_lem,
          inserted,
        ))
