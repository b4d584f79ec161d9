-- ===== src/Crud/Audit.antt =====
-- backend/app/crud/audit_log.py
use bank_transaction_system.Base.{
  true, ℕ, String, ◌≡◌, Bool, Option, none, some, [], ◌∷◌, ◌++◌, ◌==◌, str_eq, if◌then◌else◌, not,
}
use bank_transaction_system.Base.Rows.{select, exists_row, update_rows, delete_rows}
use bank_transaction_system.Models.{
  UserSession, AuditLog, AuditLogAction, SessionEvent, SessionHistory, Table,
}
use bank_transaction_system.Orm.{
  ok, err, integrity, primary_key, foreign_key, Action, Session, Env, Statement, executed, Orm,
  execute, at_most_one, ◌>>=◌,
}
use bank_transaction_system.Crud.Users
use bank_transaction_system.Crud.Statements.{begun, select_one, select_one_lem}

abbrev pub has_user : ℕ → UserSession → Bool
has_user u s = s.user_id == u

abbrev pub has_token : String → UserSession → Bool
has_token h s = str_eq s.token_hash h

abbrev pub new_audit_log : Env → ℕ → AuditLogAction → Option String → AuditLog
new_audit_log env user_id action ip = record {
  id = env.uuid4 Table.audit_logs;
  user_id = user_id;
  action = action;
  ip_address = ip;
  timestamp = env.now;
}

unfoldable pub insert_audit_log : AuditLog → Statement AuditLog
insert_audit_log e d =
    if exists_row (λ (x : AuditLog). x.id == e.id) d.audit_logs
    then err (integrity primary_key)
    else if not (exists_row (Users.has_id e.user_id) d.users)
    then err (integrity foreign_key)
    else ok (e, record d { audit_logs = d.audit_logs ++ (e ∷ []) })

abbrev pub new_session : Env → ℕ → String → ℕ → Option String → UserSession
new_session env user_id token_hash expires_at ip = record {
  id = env.uuid4 Table.sessions;
  user_id = user_id;
  token_hash = token_hash;
  ip_address = ip;
  created_at = env.now;
  expires_at = expires_at;
}

-- the columns that ON CONFLICT DO UPDATE sets
abbrev pub renewed : UserSession → UserSession → UserSession
renewed new old = record old {
  token_hash = new.token_hash;
  expires_at = new.expires_at;
  ip_address = new.ip_address;
  created_at = new.created_at;
}

-- INSERT ... ON CONFLICT (user_id) DO UPDATE
unfoldable pub upsert_session : UserSession → Statement (Unit {0})
upsert_session n d =
    if exists_row (has_user n.user_id) d.sessions
    then ok (tt, record d { sessions = update_rows (has_user n.user_id) (renewed n) d.sessions })
    else if exists_row (λ (x : UserSession). x.id == n.id) d.sessions
    then err (integrity primary_key)
    else if not (exists_row (Users.has_id n.user_id) d.users)
    then err (integrity foreign_key)
    else ok (tt, record d { sessions = d.sessions ++ (n ∷ []) })

abbrev pub new_history : Env → ℕ → SessionEvent → String → Option String → SessionHistory
new_history env user_id event token_hash ip = record {
  id = env.uuid4 Table.session_history;
  user_id = user_id;
  event = event;
  token_hash = token_hash;
  ip_address = ip;
  occurred_at = env.now;
}

unfoldable pub insert_history : SessionHistory → Statement SessionHistory
insert_history e d =
    if exists_row (λ (x : SessionHistory). x.id == e.id) d.session_history
    then err (integrity primary_key)
    else if not (exists_row (Users.has_id e.user_id) d.users)
    then err (integrity foreign_key)
    else ok (e, record d { session_history = d.session_history ++ (e ∷ []) })

module _ ⦃orm : Orm⦄ where
  -- `CRUDAuditLog.create`
  unfoldable pub create_audit_log : Env → ℕ → AuditLogAction → Option String → Action AuditLog
  create_audit_log env user_id action ip =
      execute (insert_audit_log (new_audit_log env user_id action ip))

  unfoldable pub upsert : Env → ℕ → String → ℕ → Option String → Action (Unit {0})
  upsert env user_id token_hash expires_at ip =
      execute (upsert_session (new_session env user_id token_hash expires_at ip))

  unfoldable pub get_by_user_id : ℕ → Action (Option UserSession)
  get_by_user_id user_id = select_one (λ d. select (has_user user_id) d.sessions)

  unfoldable pub get_by_token_hash : String → Action (Option UserSession)
  get_by_token_hash token_hash = select_one (λ d. select (has_token token_hash) d.sessions)

  -- `delete` of the row that it has found
  unfoldable pub delete_found : Option UserSession → Action (Unit {0})
  delete_found none s = (ok tt, s)
  delete_found (some row) s =
      execute
        (λ d. ok (
          tt,
          record d { sessions = delete_rows (λ (x : UserSession). x.id == row.id) d.sessions },
        ))
        s

  unfoldable pub delete : ℕ → Action (Unit {0})
  delete user_id = do found ← get_by_user_id user_id; delete_found found

  -- `CRUDSessionHistory.create`
  unfoldable pub create_history :
      Env → ℕ → SessionEvent → String → Option String → Action SessionHistory
  create_history env user_id event token_hash ip =
      execute (insert_history (new_history env user_id event token_hash ip))

  pub create_audit_log_lem :
      (env : Env) (u : ℕ) (a : AuditLogAction) (ip : Option String) (s : Session)
      → create_audit_log env u a ip s
        ≡ executed s (insert_audit_log (new_audit_log env u a ip) s.db)
  unfolding create_audit_log
  create_audit_log_lem env u a ip s =
      orm.execute_lem AuditLog (insert_audit_log (new_audit_log env u a ip)) s

  pub upsert_lem :
      (env : Env) (u : ℕ) (h : String) (at : ℕ) (ip : Option String) (s : Session)
      → upsert env u h at ip s ≡ executed s (upsert_session (new_session env u h at ip) s.db)
  unfolding upsert
  upsert_lem env u h at ip s = orm.execute_lem Unit (upsert_session (new_session env u h at ip)) s

  pub get_by_user_id_lem :
      (u : ℕ) (s : Session)
      → get_by_user_id u s ≡ (at_most_one (select (has_user u) s.db.sessions), begun s)
  unfolding get_by_user_id
  get_by_user_id_lem u s = select_one_lem (λ d. select (has_user u) d.sessions) s

  pub get_by_token_hash_lem :
      (h : String) (s : Session)
      → get_by_token_hash h s ≡ (at_most_one (select (has_token h) s.db.sessions), begun s)
  unfolding get_by_token_hash
  get_by_token_hash_lem h s = select_one_lem (λ d. select (has_token h) d.sessions) s

  pub create_history_lem :
      (env : Env) (u : ℕ) (e : SessionEvent) (h : String) (ip : Option String) (s : Session)
      → create_history env u e h ip s ≡ executed s (insert_history (new_history env u e h ip) s.db)
  unfolding create_history
  create_history_lem env u e h ip s =
      orm.execute_lem SessionHistory (insert_history (new_history env u e h ip)) s

  -- The row that is found is deleted by its key.
  pub delete_one :
      (u : ℕ) (row : UserSession) (s : Session)
      → select (has_user u) s.db.sessions ≡ row ∷ []
      → delete u s ≡ (
        ok tt,
        record s {
          db = record s.db {
            sessions = delete_rows (λ (x : UserSession). x.id == row.id) s.db.sessions;
          };
          in_transaction = true;
        },
      )
  unfolding delete delete_found
  delete_one u row s only = simp (get_by_user_id_lem, only, orm.execute_lem)
