-- ===== src/Services/Transactions/Outcomes.antt =====
-- The decision tree of `create_transaction` (backend/app/services/transaction_service.py): what each
-- branch answers and leaves in the database, once the card is resolved.
use bank_transaction_system.Base.{
  ℕ, ◌≡◌, refl, ◌∙◌, true, false, Option, none, some, [], ◌∷◌, arith,
}
use bank_transaction_system.Base.Rows.{select}
use bank_transaction_system.Base.Int.{leb_ℤ, ◌-ℤ◌, ◌≤ℤ◌}
use bank_transaction_system.Models.{
  User, Account, Card, CardType, Transaction, TransactionType, TransactionStatus, Db,
}
use bank_transaction_system.Schemas.{TransactionCreate}
use bank_transaction_system.Platform.{Platform}
use bank_transaction_system.Orm.{Error, ok, err, Session, Env, Orm}
use bank_transaction_system.Crud.Statements.{begun, numeric_fits}
use bank_transaction_system.Crud.Accounts.{store_balance, has_id}
use bank_transaction_system.Crud.Transactions as Rows
use bank_transaction_system.Crud.Transactions.{insert_transaction, new_transaction}
use bank_transaction_system.Services.Failures.{insufficient_funds}
use bank_transaction_system.Services.Cards.{resolve_card}
use bank_transaction_system.Services.Transactions.{
  Routed, after_commit, check_reversal, row_of, is_future, final_status, queue_international,
  pay_national, branch, route, create_transaction, method_of,
}
use bank_transaction_system.Services.Transactions.Steps.{
  final_status_enough, final_status_short, process_new_lem,
}
use bank_transaction_system.Services.Transactions.Postings.{
  ReversalKnown, added, debited, national_row, Insertable, insert_after_debit, Insertable-positive,
  store_debit,
}

module _ ⦃orm : Orm⦄ where
  pub check_reversal_known :
      (o : Option ℕ) (s : Session)
      → ReversalKnown o s.db
      → check_reversal o (begun s) ≡ (ok tt, begun s)
  unfolding check_reversal
  check_reversal_known none s h = refl
  check_reversal_known (some i) s (t, h) = simp (Rows.get_lem, h)

  -- The branch for a payment that is neither scheduled nor international.
  route_national :
      (env : Env) (payload : TransactionCreate) (card : Card) (s : Session)
      → ReversalKnown payload.reversal_of s.db
      → is_future payload.scheduled_for env.now ≡ false
      → payload.type ≡ TransactionType.national
      → route env payload card (begun s) ≡ pay_national env payload card (begun s)
  unfolding route branch
  route_national env payload card s known now national =
      rw (check_reversal_known payload.reversal_of s known, now, national)

  pub route_international :
      (env : Env) (payload : TransactionCreate) (card : Card) (s : Session)
      → ReversalKnown payload.reversal_of s.db
      → is_future payload.scheduled_for env.now ≡ false
      → payload.type ≡ TransactionType.international
      → route env payload card (begun s) ≡ queue_international env payload card (begun s)
  unfolding route branch
  route_international env payload card s known now international =
      rw (check_reversal_known payload.reversal_of s known, now, international)

  module _ ⦃p : Platform⦄ (env : Env) (payload : TransactionCreate) (user : User) (s t : Session)
      (card : Card) (resolved : resolve_card env payload.card user s ≡ (ok card, t))
      (idle : t.in_transaction ≡ false) (known : ReversalKnown payload.reversal_of t.db) where
    pub created_ok :
        (r : Routed) (u : Session)
        → route env payload card (begun t) ≡ (ok r, u)
        → create_transaction env payload user s
          ≡ after_commit (method_of card.card_type) r (record u { in_transaction = false })
    unfolding create_transaction
    created_ok r u h = rw (resolved, orm.begin_idle Routed (route env payload card) t idle, h)

    pub created_err :
        (e : Error) (u : Session)
        → route env payload card (begun t) ≡ (err e, u)
        → create_transaction env payload user s
          ≡ (err e, record u { db = t.db; in_transaction = false })
    unfolding create_transaction
    created_err e u h = rw (resolved, orm.begin_idle Routed (route env payload card) t idle, h)

    -- The session after the row is added to `d`.
    abbrev pub committed : Transaction → Db → Session
    committed row d = record t { db = added row d; in_transaction = false }

    paid_national :
        (st : TransactionStatus) (d : Db)
        → is_future payload.scheduled_for env.now ≡ false
        → payload.type ≡ TransactionType.national
        → final_status (method_of card.card_type) card.account_id payload.amount (begun t)
          ≡ (ok st, record t { db = d; in_transaction = true })
        → Insertable (national_row env payload card st) d
        → create_transaction env payload user s
          ≡ after_commit
              (method_of card.card_type)
              (Routed.processed (national_row env payload card st))
              (committed (national_row env payload card st) d)
    unfolding pay_national
    paid_national st d now national final insertable =
        created_ok (Routed.processed (national_row env payload card st))
          (record t { db = added (national_row env payload card st) d; in_transaction = true })
          (route_national env payload card t known now national
            ∙ rw
                (process_new_lem env
                  (record (row_of payload card TransactionStatus.pending) {
                    transaction_type = TransactionType.national;
                  })
                  st (added (national_row env payload card st) d) (begun t) _ final insertable)
                refl)

    -- A national debit payment for now, of a resolved card and with a known reversal target, whose
    -- row the table admits: if the card's account is one whose balance fits the column and covers
    -- the amount, the row is COMPLETED and the balance falls by the amount, in one transaction.
    pub debit_completes :
        (account : Account)
        → is_future payload.scheduled_for env.now ≡ false
        → payload.type ≡ TransactionType.national
        → card.card_type ≡ CardType.debit
        → select (has_id card.account_id) t.db.accounts ≡ account ∷ []
        → numeric_fits account.balance ≡ true
        → Insertable (national_row env payload card TransactionStatus.completed) t.db
        → payload.amount ≤ℤ account.balance
        → create_transaction env payload user s ≡ (
          ok (national_row env payload card TransactionStatus.completed),
          committed
              (national_row env payload card TransactionStatus.completed)
              (debited account payload.amount t.db),
        )
    unfolding after_commit
    debit_completes account now national debit found fits insertable enough =
        let row = national_row env payload card TransactionStatus.completed in
        let paid = debited account payload.amount t.db in
        let covered : leb_ℤ payload.amount account.balance ≡ true = ground arith in
        let stored : store_balance account.id (account.balance -ℤ payload.amount) t.db
            ≡ ok (tt, paid) =
          store_debit account payload.amount t.db fits (Insertable-positive row t.db insertable)
            covered in
        paid_national TransactionStatus.completed paid now national
          (rw debit (
            final_status_enough card.account_id payload.amount account paid (begun t) found covered
              stored))
          (insert_after_debit row account payload.amount t.db insertable)
        ∙ rw debit

    -- A national debit payment for now, of a resolved card and with a known reversal target, whose
    -- row the table admits: if the card's account does not cover the amount, the request is
    -- answered 402, the row is kept as FAILED, and nothing else changes.
    pub debit_rejected :
        (account : Account)
        → is_future payload.scheduled_for env.now ≡ false
        → payload.type ≡ TransactionType.national
        → card.card_type ≡ CardType.debit
        → select (has_id card.account_id) t.db.accounts ≡ account ∷ []
        → Insertable (national_row env payload card TransactionStatus.failed) t.db
        → ¬ (payload.amount ≤ℤ account.balance)
        → create_transaction env payload user s ≡ (
          err insufficient_funds,
          committed (national_row env payload card TransactionStatus.failed) t.db,
        )
    unfolding after_commit
    debit_rejected account now national debit found insertable short =
        let uncovered : leb_ℤ payload.amount account.balance ≡ false = ground arith in
        paid_national TransactionStatus.failed t.db now national
          (rw debit
            (final_status_short card.account_id payload.amount account (begun t) found uncovered))
          insertable
        ∙ rw debit

    -- A national credit payment for now, of a resolved card and with a known reversal target,
    -- whose row the table admits, is COMPLETED whatever the balance, and no balance changes.
    pub credit_completes :
        is_future payload.scheduled_for env.now ≡ false
        → payload.type ≡ TransactionType.national
        → card.card_type ≡ CardType.credit
        → Insertable (national_row env payload card TransactionStatus.completed) t.db
        → create_transaction env payload user s ≡ (
          ok (national_row env payload card TransactionStatus.completed),
          committed (national_row env payload card TransactionStatus.completed) t.db,
        )
    unfolding after_commit final_status
    credit_completes now national credit insertable =
        paid_national TransactionStatus.completed t.db now national (rw credit) insertable
        ∙ rw credit
