-- ===== src/Services/Transactions/Writes/Claimed.antt =====
-- What `process_scheduled_transaction` (backend/app/services/transaction_service.py) writes.
use bank_transaction_system.Base.{ℕ, ◌≡◌, true, Option, none, some}
use bank_transaction_system.Models.{Transaction, TransactionStatus, Db}
use bank_transaction_system.Orm.{Env, Orm}
use bank_transaction_system.Orm.Relates.{
  Relates, Relates-pure, Relates-or_raise, Relates-bind, Relates-execute,
}
use bank_transaction_system.Orm.Returns.{Relates-bind-Returns}
use bank_transaction_system.Crud.Transactions as Rows
use bank_transaction_system.Crud.Transactions.{insert_transaction, set_status, NewTransaction}
use bank_transaction_system.Services.Transactions.{
  persist, process_national, refresh, run_claimed, claim_and_run, process_scheduled_transaction,
}
use bank_transaction_system.Services.Transactions.Writes.{
  Writes, IsFinal, RespectsMoves, may_follow, final_status-related, final_status-IsFinal,
  create-related, get-related, related_rules,
}

module _ {R : Db → Db → Type 0} (w : Writes R) ⦃orm : Orm⦄ where
  -- A scheduled row that falls due is updated in its place.
  module _ (moved : RespectsMoves R) where
    update_status-related :
        (i : ℕ) (new expected : TransactionStatus)
        → may_follow expected new ≡ true
        → Relates R (Rows.update_status i new expected)
    unfolding Rows.update_status
    update_status-related i new expected h =
        Relates-execute w.pre (set_status i new expected) (moved i new expected h)

    persist-related :
        (env : Env) (n : NewTransaction) (existing : Option ℕ)
        → IsFinal n.status
        → Relates R (persist env n existing)
    unfolding persist
    persist-related env n none h = create-related w env n
    persist-related env n (some i) h =
        search (
          w.pre, h, Relates-bind, Relates-or_raise, Relates-pure, get-related,
          update_status-related,
        )

    process_national-related :
        (env : Env) (n : NewTransaction) (existing : Option ℕ)
        → Relates R (process_national env n existing)
    unfolding process_national
    process_national-related env n existing =
        Relates-bind-Returns w.pre _ _ (final_status-related w n.method n.origin_account n.amount)
          (final_status-IsFinal w n.method n.origin_account n.amount)
          (λ final h. persist-related env (record n { status = final }) existing h)

    ruleset moving_rules = (update_status-related, process_national-related)

    pub run_claimed-related : (env : Env) (t : Transaction) → Relates R (run_claimed env t)
    unfolding run_claimed
    run_claimed-related env t = search (w.pre, related_rules, moving_rules)

    claim_and_run-related : (env : Env) (i : ℕ) → Relates R (claim_and_run env i)
    unfolding claim_and_run
    claim_and_run-related env i =
        search (w.pre, related_rules, moving_rules, run_claimed-related) depth 12

    pub process_scheduled-related :
        (env : Env) (i : ℕ) → Relates R (process_scheduled_transaction env i)
    unfolding process_scheduled_transaction refresh
    process_scheduled-related env i =
        search (w.pre, related_rules, moving_rules, claim_and_run-related)
