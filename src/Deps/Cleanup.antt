-- ===== src/Deps/Cleanup.antt =====
-- The background task that ends an expired session (`_cleanup_expired_session` of
-- backend/app/deps.py).
use bank_transaction_system.Base.{ℕ, ◌≡◌, true, false, none, [], ◌∷◌, ◌==◌, String}
use bank_transaction_system.Base.Rows.{select, exists_row, delete_rows}
use bank_transaction_system.Models.{UserSession, SessionEvent, SessionHistory}
use bank_transaction_system.Orm.{Session, Env, Orm}
use bank_transaction_system.Crud.Users as Rows
use bank_transaction_system.Crud.Audit
use bank_transaction_system.Crud.Audit.{has_user, new_history}
use bank_transaction_system.Services.Auth.Sessions.{with_sessions}
use bank_transaction_system.Services.Auth.Login.{recorded, history_ok}
use bank_transaction_system.Deps.{expire_session, cleanup_expired_session}

-- The event that a clean-up records.
abbrev pub expired_event : Env → ℕ → String → SessionHistory
expired_event env user_id digest = new_history env user_id SessionEvent.expired digest none

module _ ⦃orm : Orm⦄ (env : Env) (user_id : ℕ) (s : Session) (idle : s.in_transaction ≡ false)
    (known : exists_row (Rows.has_id user_id) s.db.users ≡ true)
    (fresh : exists_row
        (λ (x : SessionHistory). x.id == (expired_event env user_id "").id)
        s.db.session_history
      ≡ false) where
  -- The clean-up of a user with one session, who is in the database, on a session without a
  -- transaction and with a new identifier for the event: the session is deleted, and an event of
  -- the history with its token's digest is added.
  pub cleanup_ends_session :
      (row : UserSession)
      → select (has_user user_id) s.db.sessions ≡ row ∷ []
      → cleanup_expired_session env user_id s ≡ record s {
        db =
            recorded (expired_event env user_id row.token_hash) (
              with_sessions (delete_rows (λ (x : UserSession). x.id == row.id) s.db.sessions) s.db);
        in_transaction = false;
      }
  unfolding cleanup_expired_session expire_session
  cleanup_ends_session row own =
      rw (cleanup_expired_session, orm.begin_idle Unit (expire_session env user_id) s idle)
        (simp (
          Audit.get_by_user_id_lem,
          own,
          Audit.delete_one user_id row (record s { in_transaction = true }) own,
          Audit.create_history_lem,
          history_ok (expired_event env user_id row.token_hash)
              (with_sessions (delete_rows (λ (x : UserSession). x.id == row.id) s.db.sessions) s.db)
              fresh known,
        ))
