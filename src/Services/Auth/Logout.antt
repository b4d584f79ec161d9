-- ===== src/Services/Auth/Logout.antt =====
-- The end of a session: `logout` (backend/app/services/auth_service.py).
use bank_transaction_system.Base.{String, ◌≡◌, ◌∙◌, true, false, List, [], ◌∷◌, ◌==◌, ==_refl}
use bank_transaction_system.Base.Rows.{select, exists_row, delete_rows, select-delete_rows}
use bank_transaction_system.Models.{
  User, UserSession, AuditLog, AuditLogAction, SessionEvent, SessionHistory, Db,
}
use bank_transaction_system.Platform.{Platform, hash_session_token}
use bank_transaction_system.Orm.{ok, err, Session, Env, Orm}
use bank_transaction_system.Crud.Statements.{begun}
use bank_transaction_system.Crud.Users as Rows
use bank_transaction_system.Crud.Audit
use bank_transaction_system.Crud.Audit.{has_user, has_token, new_audit_log, new_history}
use bank_transaction_system.Services.Auth.{logout, close_session}
use bank_transaction_system.Services.Auth.Refusals.{logged}
use bank_transaction_system.Services.Auth.Sessions.{with_sessions}
use bank_transaction_system.Services.Auth.Login.{recorded, audit_ok, history_ok}
use bank_transaction_system.Services.Auth.Requests.{unknown_token}
use bank_transaction_system.Deps.{get_current_user, invalid_session}

module _ (env : Env) (user : User) (row : UserSession) where
  -- The rows that a logout writes.
  abbrev pub logout_entry : AuditLog
  logout_entry = new_audit_log env user.id AuditLogAction.logout env.client_host

  abbrev pub logout_event : SessionHistory
  logout_event = new_history env user.id SessionEvent.logout row.token_hash env.client_host

  -- The sessions without the user's.
  abbrev pub without_row : Db → List UserSession
  without_row d = delete_rows (λ (x : UserSession). x.id == row.id) d.sessions

  -- The database after a logout.
  abbrev pub logged_out : Db → Db
  logged_out d = recorded logout_event (with_sessions (without_row d) (logged logout_entry d))

module _ ⦃orm : Orm⦄ (env : Env) (user : User) (s : Session) (idle : s.in_transaction ≡ false)
    (row : UserSession) (own : select (has_user user.id) s.db.sessions ≡ row ∷ [])
    (known : exists_row (Rows.has_id user.id) s.db.users ≡ true)
    (fresh_log : exists_row
        (λ (x : AuditLog). x.id == (logout_entry env user row).id)
        s.db.audit_logs
      ≡ false)
    (fresh_event : exists_row
        (λ (x : SessionHistory). x.id == (logout_event env user row).id)
        s.db.session_history
      ≡ false) where
  -- The logout of a known user with one session, with new identifiers and on a session without a
  -- transaction, deletes the user's session, and writes an entry of the audit log and an event of
  -- the history with the digest of the session's token.
  pub logout_deletes_session :
      logout env user s
      ≡ (ok tt, record s { db = logged_out env user row s.db; in_transaction = false })
  unfolding logout close_session
  logout_deletes_session = rw (orm.begin_idle Unit (close_session env user) s idle) (
      simp (
        Audit.get_by_user_id_lem,
        own,
        Audit.create_audit_log_lem,
        audit_ok (logout_entry env user row) s.db fresh_log known,
        Audit.delete_one user.id row
            (record s { db = logged (logout_entry env user row) s.db; in_transaction = true }) own,
        Audit.create_history_lem,
        history_ok (logout_event env user row)
            (with_sessions (without_row env user row s.db)
              (logged (logout_entry env user row) s.db))
            fresh_event known,
      ))

  -- After the logout of a known user with one session, with new identifiers and on a session
  -- without a transaction, the session's token, which is no other session's, is answered 401.
  pub request_after_logout :
      ⦃p : Platform⦄ (env' : Env) (token : String)
      → select (has_token (hash_session_token token)) s.db.sessions ≡ row ∷ []
      → get_current_user env' token (logout env user s).1
        ≡ (err invalid_session, begun (logout env user s).1)
  unfolding delete_rows
  request_after_logout env' token only = rw logout_deletes_session (
      unknown_token env' token
        (record s { db = logged_out env user row s.db; in_transaction = false })
        (select-delete_rows (λ (x : UserSession). x.id == row.id)
            (has_token (hash_session_token token)) s.db.sessions
          ∙ rw only (rw (==_refl row.id))))
