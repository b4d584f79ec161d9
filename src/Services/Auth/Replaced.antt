-- ===== src/Services/Auth/Replaced.antt =====
-- A user has one session: a second `login` (backend/app/services/auth_service.py) takes the place of
-- the first one's.
use bank_transaction_system.Base.{
  String, ◌≡◌, refl, Bool, true, false, some, List, [], ◌∷◌, str_eq, Bool-cases, inl, inr,
}
use bank_transaction_system.Base.Rows.{select, update_rows, select_first, All}
use bank_transaction_system.Models.{User, UserRole, UserSession}
use bank_transaction_system.Platform.{Platform, hash_session_token}
use bank_transaction_system.Orm.{err, Session, Env, Orm}
use bank_transaction_system.Crud.Statements.{begun}
use bank_transaction_system.Crud.Users as Rows
use bank_transaction_system.Crud.Audit.{has_user, has_token, renewed}
use bank_transaction_system.Services.Auth.{is_ip_blocked, login}
use bank_transaction_system.Services.Auth.Refusals.{accepts}
use bank_transaction_system.Services.Auth.Login.{opened, logged_in, IsFresh, login_opens_session}
use bank_transaction_system.Services.Auth.Requests.{unknown_token}
use bank_transaction_system.Deps.{get_current_user, invalid_session}

-- Where every row with `p` is updated, and no updated row has `p`, none is left.
none_updated :
    {A : Type 0} (p q : A → Bool) (f : A → A) (rows : List A)
    → ((x : A) → p (f x) ≡ false)
    → All (λ x. q x ≡ true) (select p rows)
    → select p (update_rows q f rows) ≡ []
unfolding select update_rows
none_updated p q f [] changed held = refl
none_updated p q f (x ∷ rows) changed held = elim (Bool-cases (p x)) [
  | inl has ↦
      let all : (q x ≡ true) × All (λ y. q y ≡ true) (select p rows) = rw has at held in
      rw all.0 (rw (changed x) (none_updated p q f rows changed all.1))
  | inr lacks ↦
      let rest : All (λ y. q y ≡ true) (select p rows) = rw lacks at held in
      elim (Bool-cases (q x)) [
        | inl hit ↦ rw hit (rw (changed x) (none_updated p q f rows changed rest))
        | inr missed ↦ rw missed (rw lacks (none_updated p q f rows changed rest))
      ]
]

module _ ⦃orm : Orm⦄ ⦃p : Platform⦄ (env : Env) (email password : String) (role : UserRole)
    (s : Session) (idle : s.in_transaction ≡ false) (user : User) (old : UserSession)
    (found : select (Rows.has_email email) s.db.users ≡ user ∷ [])
    (accepted : accepts password role user ≡ true)
    (allowed : is_ip_blocked user.registered_ip env.client_host ≡ false)
    (had : select (has_user user.id) s.db.sessions ≡ old ∷ []) (fresh : IsFresh env user s.db) where
  -- After another login of a user with one session, with the right email, password and role, from
  -- an address that is not blocked, on a session without a transaction and with new identifiers:
  -- the token of the first session, which is no other session's, is answered 401, unless the new
  -- token has the same digest.
  pub old_token_refused :
      (env' : Env) (token : String)
      → select (has_token (hash_session_token token)) s.db.sessions ≡ old ∷ []
      → str_eq (hash_session_token env.token_urlsafe) (hash_session_token token) ≡ false
      → get_current_user env' token (login env email password role s).1
        ≡ (err invalid_session, begun (login env email password role s).1)
  old_token_refused env' token only other =
      rw
        (login_opens_session env email password role s idle user (some old) found accepted allowed
          had fresh)
        (unknown_token env' token
          (record s { db = logged_in env user (some old) s.db; in_transaction = false })
          (none_updated (has_token (hash_session_token token)) (has_user user.id)
            (renewed (opened env user)) s.db.sessions (λ x. other)
            (rw only (select_first (has_user user.id) s.db.sessions had, tt))))
