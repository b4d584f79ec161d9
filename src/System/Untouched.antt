-- ===== src/System/Untouched.antt =====
-- The statements that leave the accounts and the transactions alone: those on users, sessions, logs
-- and the archive.
use bank_transaction_system.Base.{ℕ, ◌≡◌, arith, Bool-cases, inl, inr}
use bank_transaction_system.Base.Rows.{exists_row}
use bank_transaction_system.Models.{User, UserSession, AuditLog, SessionHistory, Db}
use bank_transaction_system.Orm.{ok}
use bank_transaction_system.Crud.Users.{insert_user}
use bank_transaction_system.Crud.Audit.{insert_audit_log, insert_history, upsert_session, has_user}
use bank_transaction_system.Services.Archive.{Server, archive}

pub record Untouched (d d' : Db) : Type 0 where
  pub accounts : d'.accounts ≡ d.accounts
  pub cards : d'.cards ≡ d.cards
  pub transactions : d'.transactions ≡ d.transactions

pub insert_user-Untouched : (u a : User) (d d' : Db) → insert_user u d ≡ ok (a, d') → Untouched d d'
unfolding insert_user
insert_user-Untouched u a d d' e = record {
  accounts = ground arith;
  cards = ground arith;
  transactions = ground arith;
}

pub insert_audit_log-Untouched :
    (x a : AuditLog) (d d' : Db) → insert_audit_log x d ≡ ok (a, d') → Untouched d d'
unfolding insert_audit_log
insert_audit_log-Untouched x a d d' e = record {
  accounts = ground arith;
  cards = ground arith;
  transactions = ground arith;
}

pub insert_history-Untouched :
    (x a : SessionHistory) (d d' : Db) → insert_history x d ≡ ok (a, d') → Untouched d d'
unfolding insert_history
insert_history-Untouched x a d d' e = record {
  accounts = ground arith;
  cards = ground arith;
  transactions = ground arith;
}

pub upsert_session-Untouched :
    (n : UserSession) (u : Unit {0}) (d d' : Db) → upsert_session n d ≡ ok (u, d') → Untouched d d'
unfolding upsert_session
upsert_session-Untouched n u d d' e =
    elim (Bool-cases (exists_row (has_user n.user_id) d.sessions)) [
      | inl had ↦ record {
        accounts = ground arith;
        cards = ground arith;
        transactions = ground arith;
      }
      | inr new ↦ record {
        accounts = ground arith;
        cards = ground arith;
        transactions = ground arith;
      }
    ]

pub archive-Untouched :
    (server : Server) (n : ℕ) (d d' : Db) → archive server d ≡ ok (n, d') → Untouched d d'
unfolding archive
archive-Untouched server n d d' e = record {
  accounts = ground arith;
  cards = ground arith;
  transactions = ground arith;
}
