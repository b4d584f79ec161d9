-- ===== src/System/Money.antt =====
-- What a relation on the money of the program has to respect.
use bank_transaction_system.Base.{ℕ, ◌≡◌, refl}
use bank_transaction_system.Models.{Account, Db}
use bank_transaction_system.Orm.{ok, Env}
use bank_transaction_system.Orm.Relates.{IsPreorder}
use bank_transaction_system.Crud.Accounts.{insert_account, new_account}
use bank_transaction_system.System.Statements.{Respects, Payments}
use bank_transaction_system.System.Untouched.{
  Untouched, insert_user-Untouched, insert_audit_log-Untouched, insert_history-Untouched,
  upsert_session-Untouched, archive-Untouched,
}

-- A relation that reads the accounts, the cards and the transactions only.
pub record RespectsMoney (R : Db → Db → Type 0) : Type 1 where
  pub pre : IsPreorder R
  pub payments : Payments R
  pub untouched : (d d' : Db) → Untouched d d' → R d d'
  pub opened :
      (env : Env) (i : ℕ) (a : Account) (d d' : Db)
      → insert_account (new_account env i) d ≡ ok (a, d')
      → R d d'

pub RespectsMoney-Respects : {R : Db → Db → Type 0} → RespectsMoney R → Respects R
RespectsMoney-Respects m = record {
  pre = m.pre;
  payments = m.payments;
  inserted_user = λ u a d d' e. m.untouched d d' (insert_user-Untouched u a d d' e);
  opened = m.opened;
  logged = λ x a d d' e. m.untouched d d' (insert_audit_log-Untouched x a d d' e);
  upserted = λ n u d d' e. m.untouched d d' (upsert_session-Untouched n u d d' e);
  recorded = λ x a d d' e. m.untouched d d' (insert_history-Untouched x a d d' e);
  deleted =
      λ row d. m.untouched d _ (record { accounts = refl; cards = refl; transactions = refl });
  archived = λ server n d d' e. m.untouched d d' (archive-Untouched server n d d' e);
}
