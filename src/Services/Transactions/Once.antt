-- ===== src/Services/Transactions/Once.antt =====
-- The optimistic lock of `process_scheduled_transaction`
-- (backend/app/services/transaction_service.py): a scheduled row is processed at most once.
use bank_transaction_system.Base.{
  ℕ, ◌≡◌, refl, ◌∙◌, true, false, Option, none, some, List, [], ◌∷◌, ◌++◌, ◌==◌, arith,
  if◌then◌else◌, ==_iff, ap, Bool-cases, inl, inr,
}
use bank_transaction_system.Base.Rows.{
  select, update_rows, exists_row, select-update_rows, select_first, select_first_exists,
}
use bank_transaction_system.Models.{Transaction, TransactionStatus, status_eq, Db}
use bank_transaction_system.Orm.{
  Result, ok, err, Session, Env, Orm, continue, finished, pure, or_raise, invalid_request,
  at_most_one,
}
use bank_transaction_system.Orm.Ends.{Ends}
use bank_transaction_system.Crud.Statements.{begun, select_one_lem}
use bank_transaction_system.Crud.Transactions as Rows
use bank_transaction_system.Crud.Transactions.{
  in_status, with_status, insert_transaction, set_status,
}
use bank_transaction_system.Crud.Written.{
  store_balance_written, insert_card_written, insert_transaction_written, set_status_written,
}
use bank_transaction_system.Services.Failures.{already_processing}
use bank_transaction_system.Services.Transactions.{
  run_claimed, claim_and_run, refresh, process_scheduled_transaction,
}
use bank_transaction_system.Services.Transactions.Writes.{Writes, RespectsMoves, may_follow}
use bank_transaction_system.Services.Transactions.Writes.Claimed.{run_claimed-related}
use bank_transaction_system.Services.Transactions.Scheduled.{
  moved, claimed_db, process_conflict, only_claimed, exists-in_status,
}

-- One row has the identifier, and it is not SCHEDULED.
pub record IsTaken (i : ℕ) (d : Db) : Type 0 where
  pub row : Transaction
  pub only : select (Rows.has_id i) d.transactions ≡ row ∷ []
  pub taken : status_eq row.status TransactionStatus.scheduled ≡ false

module _ (i : ℕ) where
  abbrev StaysTaken : Db → Db → Type 0
  StaysTaken d d' = IsTaken i d → IsTaken i d'

  same_transactions : (d d' : Db) → d'.transactions ≡ d.transactions → StaysTaken d d'
  same_transactions d d' e h = record { row = h.row; only = rw e h.only; taken = h.taken }

  -- No transition leads back to SCHEDULED.
  never_back :
      (new expected : TransactionStatus)
      → may_follow expected new ≡ true
      → status_eq new TransactionStatus.scheduled ≡ false
  never_back new expected h = ground arith

  select-append_other :
      (t : Transaction) (rows : List Transaction)
      → Rows.has_id i t ≡ false
      → select (Rows.has_id i) (rows ++ (t ∷ [])) ≡ select (Rows.has_id i) rows
  unfolding select
  select-append_other t [] other = rw other
  select-append_other t (x ∷ rows) other = rw (select-append_other t rows other)

  fresh_key :
      (t a : Transaction) (d d' : Db)
      → insert_transaction t d ≡ ok (a, d')
      → exists_row (Rows.has_id t.id) d.transactions ≡ false
  unfolding insert_transaction
  fresh_key t a d d' e = ground arith

  -- A key that is taken is not given to another row.
  inserted_other :
      (t a : Transaction) (d d' : Db)
      → insert_transaction t d ≡ ok (a, d')
      → exists_row (Rows.has_id i) d.transactions ≡ true
      → Rows.has_id i t ≡ false
  inserted_other t a d d' e there = elim (Bool-cases (t.id == i)) [
    | inl same ↦
        let key : t.id ≡ i = (==_iff t.id i).0 same in
        cc (fresh_key t a d d' e, there, ap (λ k. exists_row (Rows.has_id k) d.transactions) key)
    | inr other ↦ other
  ]

  moved-IsTaken :
      (x : Transaction) (j : ℕ) (new expected : TransactionStatus) (d : Db)
      → select (Rows.has_id i) d.transactions ≡ x ∷ []
      → status_eq x.status TransactionStatus.scheduled ≡ false
      → status_eq new TransactionStatus.scheduled ≡ false
      → IsTaken i (record d { transactions = moved j new expected d.transactions })
  unfolding update_rows
  moved-IsTaken x j new expected d only taken back = record {
    row = if in_status j expected x then with_status new x else x;
    only =
        select-update_rows (Rows.has_id i) (in_status j expected) (with_status new) d.transactions
          (λ y. refl)
        ∙ rw only;
    taken = ground arith;
  }

  StaysTaken-Writes : Writes StaysTaken
  StaysTaken-Writes = record {
    pre = record { reflexive = λ d h. h; transitive = λ f g h. g (f h) };
    inserted_card = λ c a d d' e. same_transactions d d' (rw ((insert_card_written c a d d' e).1));
    deducted =
        λ a x enough u d d' e. same_transactions d d' (rw ((store_balance_written _ _ u d d' e).1));
    inserted = λ t a d d' e h. record {
      row = h.row;
      only = rw ((insert_transaction_written t a d d' e).1) (
          select-append_other t d.transactions (
            inserted_other t a d d' e (
              select_first_exists (Rows.has_id i) (Rows.has_id i) d.transactions h.only
                (select_first (Rows.has_id i) d.transactions h.only)))
          ∙ h.only);
      taken = h.taken;
    };
  }

  StaysTaken-RespectsMoves : RespectsMoves StaysTaken
  StaysTaken-RespectsMoves j new expected f b d d' e h =
      rw ((set_status_written j new expected b d d' e).1)
        (moved-IsTaken h.row j new expected d h.only h.taken (never_back new expected f))

module _ ⦃orm : Orm⦄ (env : Env) (s : Session) (idle : s.in_transaction ≡ false) (t : Transaction)
    (only : select (Rows.has_id t.id) s.db.transactions ≡ t ∷ [])
    (due : status_eq t.status TransactionStatus.scheduled ≡ true) where
  abbrev Taken : Transaction → Db → Type 0
  Taken r d = IsTaken t.id d

  refreshed :
      (u : Session) (r : Result (Option Transaction))
      → IsTaken t.id u.db
      → Ends Taken (continue (r, begun u) (λ found. or_raise found invalid_request))
  refreshed u (ok none) h = tt
  refreshed u (ok (some r)) h = h
  refreshed u (err e) h = tt

  run-Taken :
      (r : Result (Unit {0}) × Session)
      → IsTaken t.id r.1.db
      → Ends Taken (continue (finished s (continue r (λ u. pure t))) (λ x. refresh x.id))
  unfolding refresh
  run-Taken (err e, v) h = tt
  run-Taken (ok u, v) h =
      rw
        (select_one_lem (λ d. select (Rows.has_id t.id) d.transactions)
          (record v { in_transaction = false }))
        (refreshed (record v { in_transaction = false })
          (at_most_one (select (Rows.has_id t.id) v.db.transactions)) h)

  process-Taken : Ends Taken (process_scheduled_transaction env t.id s)
  unfolding process_scheduled_transaction claim_and_run set_status
  process-Taken = rw (orm.begin_idle Transaction (claim_and_run env t.id) s idle) (
      simp
        (
          Rows.get_lem,
          only,
          Rows.update_status_lem,
          exists-in_status t.id t TransactionStatus.scheduled s.db.transactions only,
          due,
        )
        (run-Taken (run_claimed env t (record s { db = claimed_db s.db t; in_transaction = true }))
          ((run_claimed-related (StaysTaken-Writes t.id) (StaysTaken-RespectsMoves t.id) env t).at
            (record s { db = claimed_db s.db t; in_transaction = true })
            (record {
              row = with_status TransactionStatus.processing t;
              only = only_claimed env s idle t only due;
              taken = refl;
            }))))

  conflict_after :
      (i : ℕ) (env' : Env) (u : Session)
      → IsTaken i u.db
      → process_scheduled_transaction env' i (record u { in_transaction = false })
        ≡ (err already_processing, record u { in_transaction = false })
  conflict_after i env' u h =
      process_conflict env' (record u { in_transaction = false }) refl i h.row h.only h.taken

  -- Where one row has an identifier and it is SCHEDULED, on a session without a transaction: if
  -- the row is processed with a result, a second call, when the session's transaction has ended,
  -- is answered 409 and changes nothing.
  pub processed_once :
      (env' : Env) (r : Transaction) (u : Session)
      → process_scheduled_transaction env t.id s ≡ (ok r, u)
      → process_scheduled_transaction env' t.id (record u { in_transaction = false })
        ≡ (err already_processing, record u { in_transaction = false })
  processed_once env' r u e = conflict_after t.id env' u (rw e at process-Taken)
