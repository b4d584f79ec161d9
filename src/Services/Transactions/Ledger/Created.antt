-- ===== src/Services/Transactions/Ledger/Created.antt =====
-- `create_transaction` (backend/app/services/transaction_service.py) takes from an account what its
-- rows record, and nothing else.
use bank_transaction_system.Base.{ℕ, ◌≡◌, refl, ap, ◌∙◌, arith, Option, none, some, false}
use bank_transaction_system.Base.Int.{ℤ, pos, ◌+ℤ◌, ◌-ℤ◌, int_laws}
use bank_transaction_system.Models.{
  User, Card, Transaction, TransactionType, TransactionMethod, TransactionStatus, Db, type_eq,
  status_eq,
}
use bank_transaction_system.Schemas.{TransactionCreate}
use bank_transaction_system.Platform.{Platform}
use bank_transaction_system.Orm.{Result, ok, err, Session, Env, executed, begin, Orm}
use bank_transaction_system.Orm.Ends.{Ends}
use bank_transaction_system.Orm.Relates.{
  Relates, Relates-pure, Relates-raise, Relates-if, Relates-or_raise, Relates-bind, Relates-execute,
}
use bank_transaction_system.Crud.Reads.{select_one-kept}
use bank_transaction_system.Crud.Transactions as Rows
use bank_transaction_system.Crud.Transactions.{NewTransaction, new_transaction, insert_transaction}
use bank_transaction_system.Services.Cards.Writes.{resolve_card-related}
use bank_transaction_system.Services.Transactions.{
  Routed, after_commit, check_reversal, persist, process_national, schedule, queue_international,
  pay_national, branch, route, is_future, create_transaction,
}
use bank_transaction_system.Services.Transactions.Writes.{publish-kept}
use bank_transaction_system.Services.Transactions.Ledger.{ledger, due, owed}
use bank_transaction_system.Services.Transactions.Ledger.Sums.{
  insert_transaction-ledger, insert_card-ledger, plus_zero,
}
use bank_transaction_system.Services.Transactions.Ledger.Spends.{
  Conserves, Conserves-pre, Conserves-begin, Took, Spends, Spends-nothing, Spends-bind, Spends-if,
}
use bank_transaction_system.Services.Transactions.Ledger.Debited.{final_status-Spends}

module _ (i : ℕ) ⦃orm : Orm⦄ where
  Took-back : (x : ℤ) (d d' : Db) → ledger i d' ≡ ledger i d +ℤ x → Took i (pos 0 -ℤ x) d d'
  Took-back x d d' h = grind (int_laws, h)

  executed-Spends :
      (t : Transaction) (s : Session) (r : Result (Transaction × Db))
      → insert_transaction t s.db ≡ r
      → Ends (λ a d'. Took i (pos 0 -ℤ owed i t) s.db d') (executed s r)
  executed-Spends t s (ok (a, d')) e =
      Took-back (owed i t) s.db d' (insert_transaction-ledger i t a s.db d' e)
  executed-Spends t s (err c) e = tt

  -- A new row records what has been taken.
  create-Spends :
      (env : Env) (n : NewTransaction)
      → Spends i (λ a. pos 0 -ℤ owed i (new_transaction env n)) (Rows.create env n)
  create-Spends env n = record {
    at = λ s. rw (Rows.create_lem env n s) (executed-Spends (new_transaction env n) s _ refl);
  }

  process_new-Spends :
      (env : Env) (n : NewTransaction) → Spends i (λ t. pos 0) (process_national env n none)
  unfolding process_national persist
  process_new-Spends env n =
      Spends-bind i (due i n.method n.origin_account n.amount) _ _ _
        (final_status-Spends i n.method n.origin_account n.amount)
        (λ st. create-Spends env (record n { status = st }))

  -- A row that is not a completed debit records nothing.
  create-kept :
      (env : Env) (n : NewTransaction)
      → owed i (new_transaction env n) ≡ pos 0
      → Relates (Conserves i) (Rows.create env n)
  unfolding Rows.create
  create-kept env n nothing = Relates-execute (Conserves-pre i) _ (λ a d d' e.
      insert_transaction-ledger i (new_transaction env n) a d d' e
      ∙ rw nothing (plus_zero (ledger i d)))

  due-other :
      (m : TransactionMethod) (origin : ℕ) (x : ℤ) (st : TransactionStatus)
      → status_eq st TransactionStatus.completed ≡ false
      → due i m origin x st ≡ pos 0
  due-other m origin x st other = ground (arith, other)

  schedule-kept :
      (env : Env) (payload : TransactionCreate) (card : Card)
      → Relates (Conserves i) (schedule env payload card)
  unfolding schedule
  schedule-kept env payload card =
      Relates-bind (Conserves-pre i) _ _
        (create-kept env _
          (due-other _ card.account_id payload.amount TransactionStatus.scheduled refl))
        (λ t. Relates-pure (Conserves-pre i) _)

  queue-kept :
      (env : Env) (payload : TransactionCreate) (card : Card)
      → Relates (Conserves i) (queue_international env payload card)
  unfolding queue_international
  queue-kept env payload card =
      Relates-bind (Conserves-pre i) _ _
        (create-kept env _
          (due-other _ card.account_id payload.amount TransactionStatus.pending refl))
        (λ t.
          Relates-bind (Conserves-pre i) _ _ (publish-kept (Conserves-pre i) env t)
            (λ u. Relates-pure (Conserves-pre i) _))

  pay_national-Spends :
      (env : Env) (payload : TransactionCreate) (card : Card)
      → Spends i (λ r. pos 0) (pay_national env payload card)
  unfolding pay_national ◌-ℤ◌
  pay_national-Spends env payload card =
      Spends-bind i (λ t. pos 0) _ _ _ (process_new-Spends env _)
        (λ t. Spends-nothing i _ (Relates-pure (Conserves-pre i) _))

  branch-Spends :
      (env : Env) (payload : TransactionCreate) (card : Card)
      → Spends i (λ r. pos 0) (branch env payload card)
  unfolding branch
  branch-Spends env payload card =
      Spends-if i (is_future payload.scheduled_for env.now) _ _ _
        (Spends-nothing i _ (schedule-kept env payload card))
        (Spends-if i (type_eq payload.type TransactionType.international) _ _ _
          (Spends-nothing i _ (queue-kept env payload card)) (pay_national-Spends env payload card))

  check_reversal-kept : (o : Option ℕ) → Relates (Conserves i) (check_reversal o)
  unfolding check_reversal Rows.get
  check_reversal-kept none = Relates-pure (Conserves-pre i) tt
  check_reversal-kept (some original) =
      search (Conserves-pre, Relates-bind, Relates-or_raise, Relates-pure, select_one-kept)

  route-Spends :
      (env : Env) (payload : TransactionCreate) (card : Card)
      → Spends i (λ r. pos 0) (route env payload card)
  unfolding route ◌-ℤ◌
  route-Spends env payload card =
      Spends-bind i (λ u. pos 0) _ _ _
        (Spends-nothing i _ (check_reversal-kept payload.reversal_of))
        (λ u. branch-Spends env payload card)

  pub after_commit-kept :
      (m : TransactionMethod) (r : Routed) → Relates (Conserves i) (after_commit m r)
  unfolding after_commit
  after_commit-kept m (Routed.returned t) = Relates-pure (Conserves-pre i) t
  after_commit-kept m (Routed.processed t) =
      search (Conserves-pre, Relates-if, Relates-raise, Relates-pure)

  -- The transaction of a payment, committed or rolled back.
  pub payment-kept :
      (env : Env) (payload : TransactionCreate) (card : Card)
      → Relates (Conserves i) (begin (route env payload card))
  payment-kept env payload card = Conserves-begin i _ (route-Spends env payload card)

  -- Other sessions' commits before a new card is inserted are let through, where they keep the
  -- ledger.
  pub create_transaction-kept :
      ⦃p : Platform⦄ (env : Env) (payload : TransactionCreate) (user : User) (s : Session)
      → ((d : Db) → ledger i (env.commits d) ≡ ledger i d)
      → ledger i (create_transaction env payload user s).1.db ≡ ledger i s.db
  unfolding create_transaction
  create_transaction-kept env payload user s commits =
      (Relates-bind (Conserves-pre i) _ _
          (resolve_card-related (Conserves-pre i) (insert_card-ledger i) env commits payload.card
            user)
          (λ card.
            Relates-bind (Conserves-pre i) _ _ (payment-kept env payload card)
              (λ routed. after_commit-kept _ routed))).at
        s

  -- Where no other session commits while it is served, a customer's payment keeps the ledger of
  -- every account, whatever its outcome: the account's balance falls by what its COMPLETED debit
  -- rows record, to the ten-thousandth, and else stays.
  pub create_transaction-ledger :
      ⦃p : Platform⦄ (env : Env) (payload : TransactionCreate) (user : User) (s : Session)
      → ((d : Db) → env.commits d ≡ d)
      → ledger i (create_transaction env payload user s).1.db ≡ ledger i s.db
  create_transaction-ledger env payload user s alone =
      create_transaction-kept env payload user s (λ d. ap (ledger i) (alone d))
