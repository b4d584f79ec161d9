-- ===== src/Services/Transactions/Scheduled.antt =====
-- `process_scheduled_transaction` (backend/app/services/transaction_service.py): a due row is claimed
-- once, and then settled.
use bank_transaction_system.Base.{ℕ, ◌≡◌, refl, ◌∙◌, true, false, List, [], ◌∷◌, arith, ==_refl}
use bank_transaction_system.Base.Rows.{
  select, update_rows, exists_row, exists_row-one, select-update_rows, select_first,
}
use bank_transaction_system.Models.{Account, Transaction, TransactionStatus, status_eq, Db}
use bank_transaction_system.Orm.{Error, ok, err, Session, Env, Orm}
use bank_transaction_system.Crud.Statements.{select_one_lem}
use bank_transaction_system.Crud.Transactions as Rows
use bank_transaction_system.Crud.Transactions.{in_status, with_status, set_status}
use bank_transaction_system.Services.Failures.{transaction_missing, already_processing}
use bank_transaction_system.Services.Transactions.{
  refresh, run_claimed, claim_and_run, process_scheduled_transaction,
}

-- The rows after the UPDATE of `update_status`.
abbrev pub moved : ℕ → TransactionStatus → TransactionStatus → List Transaction → List Transaction
moved i new expected = update_rows (in_status i expected) (with_status new)

in_status-has_id :
    (i : ℕ) (st : TransactionStatus) (t : Transaction)
    → in_status i st t ≡ true
    → Rows.has_id i t ≡ true
in_status-has_id i st t h = ground arith

-- The one row with the identifier, after the UPDATE.
select-moved :
    (t : Transaction) (new expected : TransactionStatus) (rows : List Transaction)
    → select (Rows.has_id t.id) rows ≡ t ∷ []
    → status_eq t.status expected ≡ true
    → select (Rows.has_id t.id) (moved t.id new expected rows) ≡ with_status new t ∷ []
unfolding update_rows
select-moved t new expected rows only h =
    select-update_rows (Rows.has_id t.id) (in_status t.id expected) (with_status new) rows
      (λ x. refl)
    ∙ rw only (rw (==_refl t.id) (rw h))

-- Whether the UPDATE finds the row.
pub exists-in_status :
    (i : ℕ) (t : Transaction) (st : TransactionStatus) (rows : List Transaction)
    → select (Rows.has_id i) rows ≡ t ∷ []
    → exists_row (in_status i st) rows ≡ status_eq t.status st
exists-in_status i t st rows only =
    exists_row-one (Rows.has_id i) (in_status i st) rows t (in_status-has_id i st) only
    ∙ rw (select_first (Rows.has_id i) rows only)

-- The database once the row is claimed.
abbrev pub claimed_db : Db → Transaction → Db
claimed_db d t = record d {
  transactions = moved t.id TransactionStatus.processing TransactionStatus.scheduled d.transactions;
}

-- The database after a due row has passed through PROCESSING to `st`, with its accounts.
abbrev pub passed : Db → Transaction → TransactionStatus → List Account → Db
passed d t st accounts = record d {
  accounts = accounts;
  transactions = moved t.id st TransactionStatus.processing (claimed_db d t).transactions;
}

module _ ⦃orm : Orm⦄ (env : Env) (s : Session) (idle : s.in_transaction ≡ false) where
  -- On a session without a transaction, an identifier that no row has is answered 404, and nothing
  -- changes.
  pub process_missing :
      (i : ℕ)
      → select (Rows.has_id i) s.db.transactions ≡ []
      → process_scheduled_transaction env i s ≡ (err transaction_missing, s)
  unfolding process_scheduled_transaction claim_and_run
  process_missing i nothing =
      rw (orm.begin_idle Transaction (claim_and_run env i) s idle)
        (simp (Rows.get_lem, nothing) (rw (← idle)))

  -- On a session without a transaction, where one row has the identifier and it is not SCHEDULED,
  -- the answer is 409, and nothing changes.
  pub process_conflict :
      (i : ℕ) (t : Transaction)
      → select (Rows.has_id i) s.db.transactions ≡ t ∷ []
      → status_eq t.status TransactionStatus.scheduled ≡ false
      → process_scheduled_transaction env i s ≡ (err already_processing, s)
  unfolding process_scheduled_transaction claim_and_run set_status
  process_conflict i t only claimed = rw (orm.begin_idle Transaction (claim_and_run env i) s idle) (
      simp
        (
          Rows.get_lem,
          only,
          Rows.update_status_lem,
          exists-in_status i t TransactionStatus.scheduled s.db.transactions only,
          claimed,
        )
        (rw (← idle)))

  module _ (t : Transaction) (only : select (Rows.has_id t.id) s.db.transactions ≡ t ∷ [])
      (due : status_eq t.status TransactionStatus.scheduled ≡ true) where
    pub only_claimed :
        select (Rows.has_id t.id) (claimed_db s.db t).transactions
        ≡ with_status TransactionStatus.processing t ∷ []
    only_claimed =
        select-moved t TransactionStatus.processing TransactionStatus.scheduled s.db.transactions
          only due

    pub only_passed :
        (st : TransactionStatus) (accounts : List Account)
        → select (Rows.has_id t.id) (passed s.db t st accounts).transactions ≡ with_status st t ∷ []
    only_passed st accounts =
        select-moved (with_status TransactionStatus.processing t) st TransactionStatus.processing
          (claimed_db s.db t).transactions only_claimed refl

    -- The claim succeeds; what is left is the payment, and the reading of the row.
    pub claimed_lem :
        (u : Session) (st : TransactionStatus) (accounts : List Account)
        → run_claimed env t (record s { db = claimed_db s.db t; in_transaction = true })
          ≡ (ok tt, u)
        → u.db ≡ passed s.db t st accounts
        → process_scheduled_transaction env t.id s
          ≡ (ok (with_status st t), record u { in_transaction = true })
    unfolding process_scheduled_transaction claim_and_run set_status refresh
    claimed_lem u st accounts ran after =
        rw (orm.begin_idle Transaction (claim_and_run env t.id) s idle) (
          simp (
            Rows.get_lem,
            only,
            Rows.update_status_lem,
            exists-in_status t.id t TransactionStatus.scheduled s.db.transactions only,
            due,
            ran,
            select_one_lem,
            after,
            only_passed st accounts,
          ))

    -- An exception of the payment takes the claim back too.
    pub process_refused :
        (e : Error) (u : Session)
        → run_claimed env t (record s { db = claimed_db s.db t; in_transaction = true })
          ≡ (err e, u)
        → process_scheduled_transaction env t.id s
          ≡ (err e, record u { db = s.db; in_transaction = false })
    unfolding process_scheduled_transaction claim_and_run set_status
    process_refused e u ran = rw (orm.begin_idle Transaction (claim_and_run env t.id) s idle) (
        simp (
          Rows.get_lem,
          only,
          Rows.update_status_lem,
          exists-in_status t.id t TransactionStatus.scheduled s.db.transactions only,
          due,
          ran,
        ))
