-- ===== src/Services/Transactions/Ledger/Claimed.antt =====
-- `process_scheduled_transaction` (backend/app/services/transaction_service.py) takes from an account
-- what the row that it processes comes to record.
use bank_transaction_system.Services.Transactions.Ledger.Settled.{
  update_status-kept, process_existing-Took,
}
use bank_transaction_system.Base.{
  ℕ, ◌≡◌, refl, ◌∙◌, sym, ==_iff, not, List, [], ◌∷◌, map, true, Bool-cases, inl, inr,
}
use bank_transaction_system.Base.Rows.{
  select, select_first, exists_row, update_rows, select-update_rows,
}
use bank_transaction_system.Base.Int.{pos}
use bank_transaction_system.Models.{
  Transaction, TransactionType, TransactionStatus, Db, type_eq, status_eq,
}
use bank_transaction_system.Orm.{
  Result, ok, err, Session, Env, continue, pure, or_raise, raise_if, at_most_one, ◌>>=◌, ◌>>◌, Orm,
}
use bank_transaction_system.Orm.Ends.{Ends}
use bank_transaction_system.Orm.Relates.{Relates, Relates-or_raise, Relates-bind}
use bank_transaction_system.Crud.Statements.{begun}
use bank_transaction_system.Crud.Reads.{select_one-kept}
use bank_transaction_system.Crud.Transactions as Rows
use bank_transaction_system.Crud.Transactions.{
  NewTransaction, in_status, with_status, set_status, joined,
}
use bank_transaction_system.Services.Queue.{publish_international_payment}
use bank_transaction_system.Services.Failures.{transaction_missing, already_processing}
use bank_transaction_system.Services.Transactions.{
  run_claimed, claim_and_run, refresh, process_scheduled_transaction,
}
use bank_transaction_system.Services.Transactions.Scheduled.{exists-in_status}
use bank_transaction_system.Services.Transactions.Writes.{publish-kept}
use bank_transaction_system.Services.Transactions.Ledger.{ledger}
use bank_transaction_system.Services.Transactions.Ledger.Moves.{set_status-unpaid}
use bank_transaction_system.Services.Transactions.Ledger.Spends.{
  Conserves, Conserves-pre, Conserves-begin, Ends-conserved, Took, Spends,
}

module _ (i : ℕ) ⦃orm : Orm⦄ where
  dropped :
      {A B : Type 0} (d : Db) (r : Result A × Session) (b : B)
      → Ends (λ a d'. Took i (pos 0) d d') r
      → Ends (λ a d'. Took i (pos 0) d d') (continue r (λ a. pure b))
  dropped d (ok a, s) b h = h
  dropped d (err e, s) b h = tt

  international-kept :
      (env : Env) (t : Transaction)
      → Relates (Conserves i) (do
        Rows.update_status t.id TransactionStatus.pending TransactionStatus.processing
        publish_international_payment env t)
  international-kept env t =
      Relates-bind (Conserves-pre i) _ _ (update_status-kept i t.id _ _ refl refl)
        (λ b. publish-kept (Conserves-pre i) env t)

  run_claimed-Took :
      (env : Env) (t : Transaction) (s : Session)
      → select (Rows.has_id t.id) s.db.transactions
        ≡ with_status TransactionStatus.processing t ∷ []
      → Ends (λ a d'. Took i (pos 0) s.db d') (run_claimed env t s)
  unfolding run_claimed
  run_claimed-Took env t s only = elim (Bool-cases (type_eq t.type TransactionType.international)) [
    | inl abroad ↦ rw abroad (Ends-conserved i s.db _ ((international-kept env t).at s))
    | inr home ↦ rw home (
        dropped s.db _ tt
          (process_existing-Took i (with_status TransactionStatus.processing t) refl env s only))
  ]

  Took-after :
      {A : Type 0} (d c : Db) (r : Result A × Session)
      → Conserves i d c
      → Ends (λ a d'. Took i (pos 0) c d') r
      → Ends (λ a d'. Took i (pos 0) d d') r
  Took-after d c (ok a, s) h k = k ∙ h
  Took-after d c (err e, s) h k = tt

  -- The one row with the key, once it is claimed.
  claimed-one :
      (k : ℕ) (t : Transaction) (rows : List Transaction)
      → select (Rows.has_id k) rows ≡ t ∷ []
      → exists_row (in_status k TransactionStatus.scheduled) rows ≡ true
      → select (Rows.has_id k) (
          update_rows
            (in_status k TransactionStatus.scheduled)
            (with_status TransactionStatus.processing)
            rows)
        ≡ with_status TransactionStatus.processing t ∷ []
  unfolding update_rows
  claimed-one k t rows only found =
      let waiting : status_eq t.status TransactionStatus.scheduled ≡ true =
        sym (exists-in_status k t TransactionStatus.scheduled rows only) ∙ found in
      let key : Rows.has_id k t ≡ true = select_first (Rows.has_id k) rows only in
      select-update_rows (Rows.has_id k) (in_status k TransactionStatus.scheduled)
        (with_status TransactionStatus.processing) rows (λ x. refl)
      ∙ rw only (rw key (rw waiting))

  claimed-Took :
      (env : Env) (k : ℕ) (s : Session) (rows : List Transaction)
      → select (Rows.has_id k) s.db.transactions ≡ rows
      → Ends
          (λ a d'. Took i (pos 0) s.db d')
          (continue
            (at_most_one (map (joined s.db) rows), s)
            (λ found. or_raise found transaction_missing >>= λ loaded.
              Rows.update_status k TransactionStatus.processing TransactionStatus.scheduled
              >>= λ claimed. raise_if (not claimed) already_processing >>= λ u.
                  run_claimed env loaded.0 >>= λ v. pure loaded.0))
  unfolding set_status
  claimed-Took env k s [] e = tt
  claimed-Took env k s (t ∷ []) e =
      let moved =
        update_rows (in_status k TransactionStatus.scheduled)
          (with_status TransactionStatus.processing) s.db.transactions in
      let claimed : Session = record s {
        db = record s.db { transactions = moved };
        in_transaction = true;
      } in
      let key : t.id ≡ k = (==_iff t.id k).0 (select_first (Rows.has_id k) s.db.transactions e) in
      rw (Rows.update_status_lem k TransactionStatus.processing TransactionStatus.scheduled s)
        (elim (Bool-cases
          (exists_row (in_status k TransactionStatus.scheduled) s.db.transactions)) [
            | inl found ↦ rw found (
                dropped s.db (run_claimed env t claimed) t (
                  Took-after s.db claimed.db _
                    (set_status-unpaid i k TransactionStatus.processing TransactionStatus.scheduled
                      s.db refl refl)
                    (run_claimed-Took env t claimed (
                      (λ j. select (Rows.has_id (key j)) moved)
                      ∙ claimed-one k t s.db.transactions e found))))
            | inr missed ↦ rw missed tt
          ])
  claimed-Took env k s (t ∷ u ∷ rows) e = tt

  claim_and_run-Spends : (env : Env) (k : ℕ) → Spends i (λ t. pos 0) (claim_and_run env k)
  unfolding claim_and_run
  claim_and_run-Spends env k = record {
    at = λ s.
        rw (Rows.get_lem k s)
          (claimed-Took env k (begun s) (select (Rows.has_id k) s.db.transactions) refl);
  }

  refresh-kept : (k : ℕ) → Relates (Conserves i) (refresh k)
  unfolding refresh
  refresh-kept k = search (Conserves-pre, Relates-bind, Relates-or_raise, select_one-kept)

  -- Processing any identifier keeps the ledger of every account, whatever the outcome: a balance
  -- falls by what the row that becomes a COMPLETED debit records, and else stays.
  pub process_scheduled-ledger :
      (env : Env) (k : ℕ) (s : Session)
      → ledger i (process_scheduled_transaction env k s).1.db ≡ ledger i s.db
  unfolding process_scheduled_transaction
  process_scheduled-ledger env k s =
      (Relates-bind (Conserves-pre i) _ _ (Conserves-begin i _ (claim_and_run-Spends env k))
          (λ t. refresh-kept t.id)).at
        s
