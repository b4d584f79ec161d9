-- ===== src/Integrity/Logged.antt =====
-- The statements on sessions, the audit log and the history (backend/app/crud/audit_log.py) keep the
-- integrity of the database.
use bank_transaction_system.Base.{
  ◌≡◌, refl, true, false, List, [], ◌∷◌, ◌++◌, ◌==◌, arith, Bool, Bool-cases, inl, inr,
}
use bank_transaction_system.Base.Rows.{
  exists_row, update_rows, delete_rows, All, All-append, All-update_rows,
}
use bank_transaction_system.Base.Distinct.{
  IsKey-ℕ, Distinct-append, Distinct-update_rows, Distinct-delete_rows,
}
use bank_transaction_system.Models.{UserSession, AuditLog, SessionHistory, Db}
use bank_transaction_system.Orm.{ok}
use bank_transaction_system.Crud.Users
use bank_transaction_system.Crud.Audit.{
  has_user, renewed, insert_audit_log, upsert_session, insert_history,
}
use bank_transaction_system.Integrity.{SessionsOk, WellFormed}

pub insert_audit_log_checked :
    (e a : AuditLog) (d d' : Db)
    → insert_audit_log e d ≡ ok (a, d')
    → (exists_row (λ (x : AuditLog). x.id == e.id) d.audit_logs ≡ false)
      × (exists_row (Users.has_id e.user_id) d.users ≡ true)
      × (d' ≡ record d { audit_logs = d.audit_logs ++ (e ∷ []) })
unfolding insert_audit_log
insert_audit_log_checked e a d d' h = (ground arith, ground arith, ground arith)

pub insert_audit_log-WellFormed :
    (e a : AuditLog) (d d' : Db) → insert_audit_log e d ≡ ok (a, d') → WellFormed d → WellFormed d'
insert_audit_log-WellFormed e a d d' h w =
    let (new, known, written) = insert_audit_log_checked e a d d' h in
    rw written (record {
      users = w.users;
      accounts = w.accounts;
      cards = w.cards;
      transactions = w.transactions;
      sessions = w.sessions;
      logs = record {
        log_ids =
            Distinct-append _ (IsKey-ℕ (λ (v : AuditLog). v.id)) d.audit_logs e new w.logs.log_ids;
        log_users = All-append _ d.audit_logs (e ∷ []) w.logs.log_users (known, tt);
        event_ids = w.logs.event_ids;
        event_users = w.logs.event_users;
      };
      archive = w.archive;
    })

pub insert_history_checked :
    (e a : SessionHistory) (d d' : Db)
    → insert_history e d ≡ ok (a, d')
    → (exists_row (λ (x : SessionHistory). x.id == e.id) d.session_history ≡ false)
      × (exists_row (Users.has_id e.user_id) d.users ≡ true)
      × (d' ≡ record d { session_history = d.session_history ++ (e ∷ []) })
unfolding insert_history
insert_history_checked e a d d' h = (ground arith, ground arith, ground arith)

pub insert_history-WellFormed :
    (e a : SessionHistory) (d d' : Db)
    → insert_history e d ≡ ok (a, d')
    → WellFormed d
    → WellFormed d'
insert_history-WellFormed e a d d' h w =
    let (new, known, written) = insert_history_checked e a d d' h in
    rw written (record {
      users = w.users;
      accounts = w.accounts;
      cards = w.cards;
      transactions = w.transactions;
      sessions = w.sessions;
      logs = record {
        log_ids = w.logs.log_ids;
        log_users = w.logs.log_users;
        event_ids =
            Distinct-append _ (IsKey-ℕ (λ (v : SessionHistory). v.id)) d.session_history e new
              w.logs.event_ids;
        event_users = All-append _ d.session_history (e ∷ []) w.logs.event_users (known, tt);
      };
      archive = w.archive;
    })

-- The database with other sessions.
abbrev pub with_sessions : List UserSession → Db → Db
with_sessions rows d = record d { sessions = rows }

with_sessions-WellFormed :
    (d : Db) (rows : List UserSession)
    → SessionsOk d.users rows
    → WellFormed d
    → WellFormed (with_sessions rows d)
with_sessions-WellFormed d rows sessions w = record {
  users = w.users;
  accounts = w.accounts;
  cards = w.cards;
  transactions = w.transactions;
  sessions = sessions;
  logs = w.logs;
  archive = w.archive;
}

pub upsert_renewed :
    (n : UserSession) (u : Unit {0}) (d d' : Db)
    → exists_row (has_user n.user_id) d.sessions ≡ true
    → upsert_session n d ≡ ok (u, d')
    → d' ≡ with_sessions (update_rows (has_user n.user_id) (renewed n) d.sessions) d
unfolding upsert_session
upsert_renewed n u d d' had e = ground arith

pub upsert_inserted :
    (n : UserSession) (u : Unit {0}) (d d' : Db)
    → exists_row (has_user n.user_id) d.sessions ≡ false
    → upsert_session n d ≡ ok (u, d')
    → (exists_row (λ (x : UserSession). x.id == n.id) d.sessions ≡ false)
      × (exists_row (Users.has_id n.user_id) d.users ≡ true)
      × (d' ≡ with_sessions (d.sessions ++ (n ∷ [])) d)
unfolding upsert_session
upsert_inserted n u d d' had e = (ground arith, ground arith, ground arith)

pub upsert_session-WellFormed :
    (n : UserSession) (u : Unit {0}) (d d' : Db)
    → upsert_session n d ≡ ok (u, d')
    → WellFormed d
    → WellFormed d'
upsert_session-WellFormed n u d d' e w =
    elim (Bool-cases (exists_row (has_user n.user_id) d.sessions)) [
      | inl had ↦
          let q = has_user n.user_id in
          rw (upsert_renewed n u d d' had e) (
            with_sessions-WellFormed d (update_rows q (renewed n) d.sessions)
              (record {
                ids =
                    Distinct-update_rows _ q (renewed n) d.sessions (λ x y. refl) (λ x y. refl)
                      w.sessions.ids;
                owners =
                    Distinct-update_rows _ q (renewed n) d.sessions (λ x y. refl) (λ x y. refl)
                      w.sessions.owners;
                users_known =
                    All-update_rows _ q (renewed n) d.sessions (λ x h. h) w.sessions.users_known;
              })
              w)
      | inr none_had ↦
          let (new, known, written) = upsert_inserted n u d d' none_had e in
          rw written (
            with_sessions-WellFormed d (d.sessions ++ (n ∷ []))
              (record {
                ids =
                    Distinct-append _ (IsKey-ℕ (λ (v : UserSession). v.id)) d.sessions n new
                      w.sessions.ids;
                owners =
                    Distinct-append _ (IsKey-ℕ (λ (v : UserSession). v.user_id)) d.sessions n
                      none_had w.sessions.owners;
                users_known = All-append _ d.sessions (n ∷ []) w.sessions.users_known (known, tt);
              })
              w)
    ]

All-delete_rows {κ} :
    {A : Type 0} (P : A → Type κ) (q : A → Bool) (rows : List A)
    → All P rows
    → All P (delete_rows q rows)
unfolding delete_rows
All-delete_rows P q [] h = tt
All-delete_rows P q (x ∷ rows) h = elim (Bool-cases (q x)) [
  | inl hit ↦ rw hit (All-delete_rows P q rows h.1)
  | inr miss ↦ rw miss (h.0, All-delete_rows P q rows h.1)
]

pub delete_rows-WellFormed :
    (q : UserSession → Bool) (d : Db)
    → WellFormed d
    → WellFormed (with_sessions (delete_rows q d.sessions) d)
delete_rows-WellFormed q d w =
    with_sessions-WellFormed d (delete_rows q d.sessions)
      (record {
        ids = Distinct-delete_rows _ q d.sessions w.sessions.ids;
        owners = Distinct-delete_rows _ q d.sessions w.sessions.owners;
        users_known = All-delete_rows _ q d.sessions w.sessions.users_known;
      })
      w
