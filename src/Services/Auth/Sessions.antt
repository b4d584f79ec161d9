-- ===== src/Services/Auth/Sessions.antt =====
-- The sessions that `login` opens and `logout` closes (backend/app/services/auth_service.py), as
-- `get_current_user` sees them (backend/app/deps.py).
use bank_transaction_system.Base.{
  ◌≡◌, refl, ◌∙◌, true, false, Option, none, some, List, [], ◌∷◌, ◌++◌, ◌==◌, ==_refl, str_eq_refl,
}
use bank_transaction_system.Base.Rows.{
  select, update_rows, exists_row, exists_row-none, select_first_exists, select_first, select-none,
  select-append, select-updated, select-update_rows,
}
use bank_transaction_system.Models.{UserSession, Db}
use bank_transaction_system.Orm.{ok}
use bank_transaction_system.Crud.Users as Rows
use bank_transaction_system.Crud.Audit.{has_user, has_token, renewed, upsert_session}

-- A user's session before the login, if there is one, and the session after it.
abbrev pub rows_of : Option UserSession → List UserSession
rows_of none = []
rows_of (some old) = old ∷ []

abbrev pub session_after : Option UserSession → UserSession → UserSession
session_after none new = new
session_after (some old) new = renewed new old

-- The sessions after the upsert: renewed in its place, or added.
abbrev pub upserted : Option UserSession → UserSession → List UserSession → List UserSession
upserted none new rows = rows ++ (new ∷ [])
upserted (some old) new rows = update_rows (has_user new.user_id) (renewed new) rows

abbrev pub with_sessions : List UserSession → Db → Db
with_sessions rows d = record d { sessions = rows }

pub upsert_ok :
    (prior : Option UserSession) (n : UserSession) (d : Db)
    → select (has_user n.user_id) d.sessions ≡ rows_of prior
    → exists_row (λ (x : UserSession). x.id == n.id) d.sessions ≡ false
    → exists_row (Rows.has_id n.user_id) d.users ≡ true
    → upsert_session n d ≡ ok (tt, with_sessions (upserted prior n d.sessions) d)
unfolding upsert_session
upsert_ok none n d had fresh known =
    rw (exists_row-none (has_user n.user_id) (has_user n.user_id) d.sessions (λ x h. h) had)
      (rw fresh (rw known))
upsert_ok (some old) n d had fresh known = rw (
    select_first_exists (has_user n.user_id) (has_user n.user_id) d.sessions had
      (select_first (has_user n.user_id) d.sessions had))

-- The user has that session, and no other.
pub session_upserted :
    (prior : Option UserSession) (n : UserSession) (rows : List UserSession)
    → select (has_user n.user_id) rows ≡ rows_of prior
    → select (has_user n.user_id) (upserted prior n rows) ≡ session_after prior n ∷ []
unfolding select update_rows
session_upserted none n rows had =
    select-append (has_user n.user_id) rows (n ∷ []) ∙ rw had (rw (==_refl n.user_id))
session_upserted (some old) n rows had =
    select-update_rows (has_user n.user_id) (has_user n.user_id) (renewed n) rows (λ x. refl)
    ∙ rw had (rw (select_first (has_user n.user_id) rows had))

-- A token hash that no session had before is the new session's.
pub select_token :
    (prior : Option UserSession) (n : UserSession) (rows : List UserSession)
    → select (has_user n.user_id) rows ≡ rows_of prior
    → exists_row (has_token n.token_hash) rows ≡ false
    → select (has_token n.token_hash) (upserted prior n rows) ≡ session_after prior n ∷ []
unfolding select
select_token none n rows had unused =
    select-append (has_token n.token_hash) rows (n ∷ [])
    ∙ rw (select-none (has_token n.token_hash) rows unused) (rw (str_eq_refl n.token_hash))
select_token (some old) n rows had unused =
    select-updated (has_user n.user_id) (has_token n.token_hash) (renewed n) rows
      (λ x. str_eq_refl n.token_hash) unused
    ∙ rw had
