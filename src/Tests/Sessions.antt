-- ===== src/Tests/Sessions.antt =====
-- Logins, requests and logouts.
use bank_transaction_system.Base.{◌≡◌, refl, some, none, [], ◌∷◌, arith}
use bank_transaction_system.Base.Rows.{select, exists_row}
use bank_transaction_system.Models.{UserRole, UserSession, AuditLogAction}
use bank_transaction_system.Platform.{verify_password, hash_session_token}
use bank_transaction_system.Orm.{ok, err, Session, Env}
use bank_transaction_system.Crud.Statements.{begun}
use bank_transaction_system.Crud.Audit.{insert_audit_log, new_audit_log}
use bank_transaction_system.Services.Auth.{login, logout, invalid_credentials, ip_rejected}
use bank_transaction_system.Services.Auth.Refusals.{logged, login_refused, login_blocked}
use bank_transaction_system.Services.Auth.Requests.{request_after_login}
use bank_transaction_system.Services.Auth.Logout.{request_after_logout}
use bank_transaction_system.Services.Auth.Replaced.{old_token_refused}
use bank_transaction_system.Deps.{get_current_user, invalid_session}
use bank_transaction_system.Tests.Fixtures.{
  serial, plain, env, alice, alice_abroad, start, bank, on_db,
}

login_refused_example :
    login env "alice@bank" "guess" UserRole.customer start ≡ (err invalid_credentials, start)
unfolding select verify_password
login_refused_example = login_refused env "alice@bank" "guess" UserRole.customer start refl refl

abbrev with_abroad : Session
with_abroad = on_db (record bank { users = alice_abroad ∷ [] })

login_blocked_example : login env "alice@bank" "secret" UserRole.customer with_abroad ≡ (
  err ip_rejected,
  on_db (logged (new_audit_log env 1 AuditLogAction.login_failed (some "10.0.0.1")) with_abroad.db),
)
unfolding select verify_password insert_audit_log exists_row
login_blocked_example =
    login_blocked env "alice@bank" "secret" UserRole.customer with_abroad refl alice_abroad refl
      refl refl refl

abbrev row : UserSession
row = record {
  id = 40;
  user_id = 1;
  token_hash = "token";
  ip_address = none;
  created_at = 1;
  expires_at = 1500;
}

abbrev in_session : Session
in_session = on_db (record bank { sessions = row ∷ [] })

abbrev late : Env
late = record env { now = 1501 }

request_after_login_example :
    get_current_user late "token" (login env "alice@bank" "secret" UserRole.customer start).1
    ≡ (ok alice, (login env "alice@bank" "secret" UserRole.customer start).1)
unfolding select verify_password exists_row
request_after_login_example =
    request_after_login env "alice@bank" "secret" UserRole.customer start refl alice none refl refl
      refl refl (record { log = refl; session = refl; event = refl }) late (omega arith) refl refl

request_after_logout_example :
    get_current_user env "token" (logout env alice in_session).1
    ≡ (err invalid_session, begun (logout env alice in_session).1)
unfolding select exists_row hash_session_token
request_after_logout_example =
    request_after_logout env alice in_session refl row refl refl refl refl env "token" refl

-- A login while the session of the token `token` is open.
abbrev second : Env
second = record env { token_urlsafe = "token2" }

old_token_refused_example :
    get_current_user env "token" (login second "alice@bank" "secret" UserRole.customer in_session).1
    ≡ (
      err invalid_session,
      begun (login second "alice@bank" "secret" UserRole.customer in_session).1,
    )
unfolding select verify_password exists_row hash_session_token
old_token_refused_example =
    old_token_refused second "alice@bank" "secret" UserRole.customer in_session refl alice row refl
      refl refl refl (record { log = refl; session = refl; event = refl }) env "token" refl refl
