-- ===== src/Services/Transactions/Ledger/Settled.antt =====
-- The end of `_process_national` (backend/app/services/transaction_service.py) on a row that is
-- claimed: what has been taken is what the row comes to record.
use bank_transaction_system.Base.{ℕ, ◌≡◌, refl, ◌∙◌, none, some, [], ◌∷◌, true, false}
use bank_transaction_system.Base.Rows.{select}
use bank_transaction_system.Base.Int.{ℤ, pos, ◌+ℤ◌, ◌-ℤ◌, int_laws}
use bank_transaction_system.Models.{
  Account, Transaction, TransactionType, TransactionMethod, TransactionStatus, Db, status_eq,
}
use bank_transaction_system.Orm.{
  Result, ok, err, assertion_error, Session, Env, continue, pure, or_raise, ◌>>=◌, Orm,
}
use bank_transaction_system.Orm.Ends.{Ends}
use bank_transaction_system.Orm.Relates.{
  Relates, IsPreorder, Relates-pure, Relates-if, Relates-or_raise, Relates-bind, Relates-execute,
}
use bank_transaction_system.Crud.Reads.{select_one-kept}
use bank_transaction_system.Crud.Written.{set_status_written, store_balance_written}
use bank_transaction_system.Crud.Accounts
use bank_transaction_system.Crud.Transactions as Rows
use bank_transaction_system.Crud.Transactions.{
  NewTransaction, in_status, with_status, set_status, joined,
}
use bank_transaction_system.Services.Transactions.{
  settle_debit, final_status, persist, process_national,
}
use bank_transaction_system.Services.Transactions.Ledger.{ledger, due}
use bank_transaction_system.Services.Transactions.Ledger.Moves.{
  set_status-unpaid, set_status-settled,
}
use bank_transaction_system.Services.Transactions.Ledger.Spends.{
  Conserves, Conserves-pre, Ends-conserved, Took,
}
use bank_transaction_system.Services.Transactions.Ledger.Debited.{final_status-Spends}

abbrev SameRows : Db → Db → Type 0
SameRows d d' = d'.transactions ≡ d.transactions

SameRows-pre : IsPreorder SameRows
SameRows-pre = record { reflexive = λ d. refl; transitive = λ e f. f ∙ e }

-- The arguments of `_process_national` for a row that is claimed.
abbrev pub claimed_row : Transaction → NewTransaction
claimed_row t = record {
  source_card = t.source_card;
  origin_account = t.origin_account;
  destination_account = t.destination_account;
  amount = t.amount;
  transaction_type = TransactionType.national;
  method = t.method;
  status = TransactionStatus.processing;
  scheduled_for = none;
  reversal_of = none;
}

module _ ⦃orm : Orm⦄ where
  deduct-rows : (a : Account) (x : ℤ) → Relates SameRows (Accounts.deduct_balance a x)
  unfolding Accounts.deduct_balance
  deduct-rows a x =
      Relates-execute SameRows-pre _
        (λ u d d' e. rw ((store_balance_written a.id (a.balance -ℤ x) u d d' e).1))

  settle_debit-rows : (a : Account) (x : ℤ) → Relates SameRows (settle_debit a x)
  unfolding settle_debit
  settle_debit-rows a x = search (SameRows-pre, Relates-if, Relates-bind, Relates-pure, deduct-rows)

  final_status-rows :
      (m : TransactionMethod) (origin : ℕ) (x : ℤ) → Relates SameRows (final_status m origin x)
  unfolding final_status Accounts.get_with_lock
  final_status-rows TransactionMethod.credit origin x = Relates-pure SameRows-pre _
  final_status-rows TransactionMethod.debit origin x =
      search (SameRows-pre, Relates-bind, Relates-or_raise, select_one-kept, settle_debit-rows)

module _ (i : ℕ) ⦃orm : Orm⦄ where
  pub update_status-kept :
      (k : ℕ) (new expected : TransactionStatus)
      → status_eq new TransactionStatus.completed ≡ false
      → status_eq expected TransactionStatus.completed ≡ false
      → Relates (Conserves i) (Rows.update_status k new expected)
  unfolding Rows.update_status
  update_status-kept k new expected new_not old_not =
      Relates-execute (Conserves-pre i) _ (λ b d d' e.
        rw ((set_status_written k new expected b d d' e).1)
          (set_status-unpaid i k new expected d new_not old_not))

  reread-kept :
      (k : ℕ)
      → Relates
          (Conserves i)
          (Rows.get k >>= λ found. or_raise found assertion_error >>= λ loaded. pure loaded.0)
  unfolding Rows.get
  reread-kept k =
      search (Conserves-pre, Relates-bind, Relates-or_raise, Relates-pure, select_one-kept)

  settled_now :
      (x : ℤ) (d c e : Db) → Took i x d c → ledger i e ≡ ledger i c +ℤ x → ledger i e ≡ ledger i d
  settled_now x d c e h k = grind (int_laws, h, k)

  module _ (t : Transaction) (held : status_eq t.status TransactionStatus.processing ≡ true) where
    persist-Took :
        (env : Env) (d : Db) (r : Result TransactionStatus × Session)
        → select (Rows.has_id t.id) d.transactions ≡ t ∷ []
        → SameRows d r.1.db
        → Ends (λ st d'. Took i (due i t.method t.origin_account t.amount st) d d') r
        → Ends
            (λ a d'. Took i (pos 0) d d')
            (continue r (λ st. persist env (record (claimed_row t) { status = st }) (some t.id)))
    unfolding persist set_status
    persist-Took env d (ok st, s) only same took =
        rw (Rows.update_status_lem t.id st TransactionStatus.processing s) (
          Ends-conserved i d _ (
            (reread-kept t.id).at _
            ∙ settled_now (due i t.method t.origin_account t.amount st) d s.db _ took (
                set_status-settled i t.id st t s.db held
                  ((λ j. select (Rows.has_id t.id) (same j)) ∙ only))))
    persist-Took env d (err e, s) only same took = tt

    pub process_existing-Took :
        (env : Env) (s : Session)
        → select (Rows.has_id t.id) s.db.transactions ≡ t ∷ []
        → Ends (λ a d'. Took i (pos 0) s.db d') (process_national env (claimed_row t) (some t.id) s)
    unfolding process_national
    process_existing-Took env s only =
        persist-Took env s.db (final_status t.method t.origin_account t.amount s) only
          ((final_status-rows t.method t.origin_account t.amount).at s)
          ((final_status-Spends i t.method t.origin_account t.amount).at s)
