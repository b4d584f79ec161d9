-- ===== src/System/Statements.antt =====
-- A relation on databases that every statement of the program respects: what each kind of statement
-- has to be shown to respect.
use bank_transaction_system.Base.{ℕ, ◌≡◌, false, [], ◌∷◌, ◌==◌}
use bank_transaction_system.Base.Rows.{select, delete_rows}
use bank_transaction_system.Base.Int.{ℤ, pos, ◌+ℤ◌, leb_ℤ}
use bank_transaction_system.Models.{User, Account, UserSession, AuditLog, SessionHistory, Db}
use bank_transaction_system.Orm.{ok, Env, Orm}
use bank_transaction_system.Orm.Relates.{
  Relates, IsPreorder, Relates-pure, Relates-or_raise, Relates-raise_if, Relates-raise, Relates-if,
  Relates-bind, Relates-begin, Relates-lift, Relates-commit,
}
use bank_transaction_system.Crud.Accounts.{has_id, insert_account, new_account, store_balance}
use bank_transaction_system.Crud.Users.{insert_user}
use bank_transaction_system.Crud.Audit.{insert_audit_log, upsert_session, insert_history}
use bank_transaction_system.Services.Archive.{Server, archive}
use bank_transaction_system.Schemas.{TransactionCreate}
use bank_transaction_system.Platform.{Platform}
use bank_transaction_system.Services.Transactions.{
  create_transaction, process_scheduled_transaction,
}
use bank_transaction_system.Services.Transactions.Writes.{Writes, RespectsMoves}
use bank_transaction_system.Services.Transactions.Writes.Created.{create_transaction-related}
use bank_transaction_system.Services.Transactions.Writes.Claimed.{process_scheduled-related}

-- The two operations that take money, whole: their statements need not respect the relation, as
-- long as what they commit does.
pub record Payments (R : Db → Db → Type 0) : Type 1 where
  pub created :
      ⦃orm : Orm⦄ ⦃p : Platform⦄ (env : Env)
      → ((d : Db) → R d (env.commits d))
      → (payload : TransactionCreate) (user : User)
      → Relates R (create_transaction env payload user)
  pub processed : ⦃orm : Orm⦄ (env : Env) (i : ℕ) → Relates R (process_scheduled_transaction env i)

pub Writes-Payments : {R : Db → Db → Type 0} → Writes R → RespectsMoves R → Payments R
Writes-Payments w moves = record {
  created = λ env commits. create_transaction-related w env commits;
  processed = process_scheduled-related w moves;
}

-- The one statement that brings money in.
pub record Credits (R : Db → Db → Type 0) : Type 0 where
  pub credited :
      (a : Account) (x : ℤ)
      → leb_ℤ x (pos 0) ≡ false
      → (u : Unit {0}) (d d' : Db) → select (has_id a.id) d.accounts ≡ a ∷ []
      → store_balance a.id (a.balance +ℤ x) d ≡ ok (u, d')
      → R d d'

pub record Respects (R : Db → Db → Type 0) : Type 1 where
  pub pre : IsPreorder R
  pub payments : Payments R
  pub inserted_user : (u a : User) (d d' : Db) → insert_user u d ≡ ok (a, d') → R d d'
  pub opened :
      (env : Env) (i : ℕ) (a : Account) (d d' : Db)
      → insert_account (new_account env i) d ≡ ok (a, d')
      → R d d'
  pub logged : (e a : AuditLog) (d d' : Db) → insert_audit_log e d ≡ ok (a, d') → R d d'
  pub upserted :
      (n : UserSession) (u : Unit {0}) (d d' : Db) → upsert_session n d ≡ ok (u, d') → R d d'
  pub recorded : (e a : SessionHistory) (d d' : Db) → insert_history e d ≡ ok (a, d') → R d d'
  pub deleted :
      (row : UserSession) (d : Db)
      → R d (record d { sessions = delete_rows (λ (x : UserSession). x.id == row.id) d.sessions })
  pub archived : (server : Server) (n : ℕ) (d d' : Db) → archive server d ≡ ok (n, d') → R d d'

pub ruleset action_rules = (
  Relates-bind, Relates-or_raise, Relates-raise_if, Relates-pure, Relates-raise, Relates-if,
  Relates-begin, Relates-lift, Relates-commit,
)
