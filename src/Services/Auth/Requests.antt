-- ===== src/Services/Auth/Requests.antt =====
-- The requests of a session, and its end: `get_current_user` (backend/app/deps.py) after `login`
-- and `logout` (backend/app/services/auth_service.py).
use bank_transaction_system.Base.{
  ◌+◌, ◌≤◌, ◌<◌, String, ◌≡◌, refl, true, false, Option, none, some, List, [], ◌∷◌, ◌++◌, arith,
  ltb, ==_iff,
}
use bank_transaction_system.Base.Rows.{select, exists_row, select_first}
use bank_transaction_system.Models.{User, UserRole, UserSession}
use bank_transaction_system.Platform.{Platform, hash_session_token}
use bank_transaction_system.Orm.{cleanup, ok, err, Session, Env, Orm}
use bank_transaction_system.Crud.Statements.{begun}
use bank_transaction_system.Crud.Users as Rows
use bank_transaction_system.Crud.Audit
use bank_transaction_system.Crud.Audit.{has_user, has_token, new_audit_log, new_history}
use bank_transaction_system.Services.Auth.{is_ip_blocked, session_ttl, login}
use bank_transaction_system.Services.Auth.Refusals.{accepts}
use bank_transaction_system.Services.Auth.Sessions.{rows_of, session_after, select_token}
use bank_transaction_system.Services.Auth.Login.{opened, logged_in, IsFresh, login_opens_session}
use bank_transaction_system.Deps.{
  get_current_user, check_expiry, load_user, add_cleanup, session_expired, invalid_session,
}

expires-session_after :
    (prior : Option UserSession) (n : UserSession)
    → (session_after prior n).expires_at ≡ n.expires_at
expires-session_after none n = refl
expires-session_after (some old) n = refl

user-session_after :
    (prior : Option UserSession) (n : UserSession) (rows : List UserSession)
    → select (has_user n.user_id) rows ≡ rows_of prior
    → (session_after prior n).user_id ≡ n.user_id
user-session_after none n rows had = refl
user-session_after (some old) n rows had =
    (==_iff old.user_id n.user_id).0 (select_first (has_user n.user_id) rows had)

module _ ⦃orm : Orm⦄ ⦃p : Platform⦄ (env : Env) (token : String) (s : Session) where
  -- A token whose digest no session has is answered 401.
  pub unknown_token :
      select (has_token (hash_session_token token)) s.db.sessions ≡ []
      → get_current_user env token s ≡ (err invalid_session, begun s)
  unfolding get_current_user
  unknown_token nothing = simp (Audit.get_by_token_hash_lem, nothing)

  module _ (row : UserSession) (user : User)
      (only : select (has_token (hash_session_token token)) s.db.sessions ≡ row ∷ []) where
    -- A token whose digest one session has, which is over, is answered 401, and the session's
    -- clean-up is asked for.
    pub expired_session :
        row.expires_at < env.now
        → get_current_user env token s ≡ (
          err session_expired,
          record s {
            in_transaction = true;
            background_tasks = s.background_tasks ++ (cleanup row.user_id ∷ []);
          },
        )
    unfolding get_current_user check_expiry add_cleanup
    expired_session late =
        let over : ltb row.expires_at env.now ≡ true = ground arith in
        simp (Audit.get_by_token_hash_lem, only, over)

    -- A token whose digest one session has, which is not over, gives the session's user, if one
    -- user has the identifier, and ends the transaction that the look-ups begin.
    pub live_session :
        env.now ≤ row.expires_at
        → select (Rows.has_id row.user_id) s.db.users ≡ user ∷ []
        → get_current_user env token s ≡ (ok user, record s { in_transaction = false })
    unfolding get_current_user check_expiry load_user
    live_session early known =
        let running : ltb row.expires_at env.now ≡ false = ground arith in
        simp (Audit.get_by_token_hash_lem, only, running, Rows.get_lem, known, orm.commit_lem)

module _ ⦃orm : Orm⦄ ⦃p : Platform⦄ (env : Env) (email password : String) (role : UserRole)
    (s : Session) (idle : s.in_transaction ≡ false) (user : User) (prior : Option UserSession)
    (found : select (Rows.has_email email) s.db.users ≡ user ∷ [])
    (accepted : accepts password role user ≡ true)
    (allowed : is_ip_blocked user.registered_ip env.client_host ≡ false)
    (had : select (has_user user.id) s.db.sessions ≡ rows_of prior)
    (fresh : IsFresh env user s.db) where
  -- After a login with the right email, password and role of one user, from an address that is not
  -- blocked, on a session without a transaction and with new identifiers and a token whose digest
  -- no session had: a request with the token is the user's, up to fifteen minutes after the login.
  pub request_after_login :
      (env' : Env)
      → env'.now ≤ env.now + session_ttl
      → exists_row (has_token (hash_session_token env.token_urlsafe)) s.db.sessions ≡ false
      → select (Rows.has_id user.id) s.db.users ≡ user ∷ []
      → get_current_user env' env.token_urlsafe (login env email password role s).1
        ≡ (ok user, (login env email password role s).1)
  request_after_login env' early unused only =
      rw
        (login_opens_session env email password role s idle user prior found accepted allowed had
          fresh)
        (live_session env' env.token_urlsafe
          (record s { db = logged_in env user prior s.db; in_transaction = false })
          (session_after prior (opened env user)) user
          (select_token prior (opened env user) s.db.sessions had unused)
          (rw (expires-session_after prior (opened env user)) early)
          (rw (user-session_after prior (opened env user) s.db.sessions had) only))
