-- ===== src/Services/Transactions/Writes.antt =====
-- The services write through a few statements only. A relation that these respect holds between
-- the databases before and after every call, whatever the call's outcome.
pub mod Created
pub mod Claimed
use bank_transaction_system.Base.{
  ℕ, String, ◌≡◌, refl, List, Bool, true, false, Option, none, some, Bool-cases, inl, inr,
}
use bank_transaction_system.Base.Int.{ℤ, leb_ℤ, ◌-ℤ◌}
use bank_transaction_system.Models.{
  User, Account, Card, Transaction, TransactionMethod, TransactionStatus, Db,
}
use bank_transaction_system.Schemas.{CardInput, TransactionCreate}
use bank_transaction_system.Platform.{Platform}
use bank_transaction_system.Orm.{
  Result, ok, err, http, integrity, data_error, multiple_results, invalid_request, sqs_error,
  attribute_error, assertion_error, Session, Action, Env, others_commit, on_integrity_error,
  Constraint, Orm,
}
use bank_transaction_system.Orm.Relates.{
  Relates, IsPreorder, Relates-pure, Relates-raise, Relates-or_raise, Relates-raise_if, Relates-if,
  Relates-bind, Relates-execute, Relates-begin,
}
use bank_transaction_system.Orm.Returns.{
  Returns, Returns-pure, Returns-if, Returns-bind, Relates-bind-Returns,
}
use bank_transaction_system.Crud.Reads.{reading-kept, select_one-kept}
use bank_transaction_system.Crud.Statements.{select_one, reading}
use bank_transaction_system.Crud.Accounts
use bank_transaction_system.Crud.Accounts.{store_balance}
use bank_transaction_system.Crud.Cards
use bank_transaction_system.Crud.Cards.{insert_card, LoadedCard}
use bank_transaction_system.Crud.Transactions as Rows
use bank_transaction_system.Crud.Transactions.{insert_transaction, set_status, NewTransaction}
use bank_transaction_system.Services.Queue.{publish_international_payment, message_of}
use bank_transaction_system.Services.Cards.{
  own_card, own_refetched, create_card, create_under, own_or_create, get_or_create, refetch,
  resolve_card,
}
use bank_transaction_system.Services.Transactions.{
  Routed, after_commit, check_reversal, settle_debit, final_status, persist, process_national,
  schedule, queue_international, pay_national, branch, route, create_transaction, refresh,
  run_claimed, claim_and_run, process_scheduled_transaction,
}

-- The transitions that the code makes, from an expected status to a new one.
abbrev pub may_follow : TransactionStatus → TransactionStatus → Bool
may_follow TransactionStatus.scheduled TransactionStatus.processing = true
may_follow TransactionStatus.processing TransactionStatus.pending = true
may_follow TransactionStatus.processing TransactionStatus.completed = true
may_follow TransactionStatus.processing TransactionStatus.failed = true
may_follow _ _ = false

pub record Writes (R : Db → Db → Type 0) : Type 0 where
  pub pre : IsPreorder R
  pub inserted_card : (c a : Card) (d d' : Db) → insert_card c d ≡ ok (a, d') → R d d'
  pub inserted : (t a : Transaction) (d d' : Db) → insert_transaction t d ≡ ok (a, d') → R d d'
  pub deducted :
      (a : Account) (x : ℤ)
      → leb_ℤ x a.balance ≡ true
      → (u : Unit {0}) (d d' : Db) → store_balance a.id (a.balance -ℤ x) d ≡ ok (u, d')
      → R d d'

-- The final statuses of a payment.
abbrev pub IsFinal : TransactionStatus → Type 0
IsFinal st = may_follow TransactionStatus.processing st ≡ true

-- The one UPDATE of the transactions table, along the transitions of `may_follow`.
abbrev pub RespectsMoves : (Db → Db → Type 0) → Type 0
RespectsMoves R =
    (i : ℕ) (new expected : TransactionStatus)
    → may_follow expected new ≡ true
    → (b : Bool) (d d' : Db) → set_status i new expected d ≡ ok (b, d')
    → R d d'

-- A message does not touch the database.
pub publish-kept :
    {R : Db → Db → Type 0}
    → IsPreorder R
    → (env : Env) (t : Transaction) → Relates R (publish_international_payment env t)
unfolding publish_international_payment
publish-kept pre env t = record {
  at = λ s. elim (Bool-cases (env.sqs_accepts (message_of t))) [
    | inl sent ↦ rw sent (pre.reflexive s.db)
    | inr refused ↦ rw refused (pre.reflexive s.db)
  ];
}

module _ {R : Db → Db → Type 0} (w : Writes R) ⦃orm : Orm⦄ where
  pub reading-related : {A : Type 0} (q : Db → A) → Relates R (orm.execute A (reading q))
  reading-related q = reading-kept w.pre q

  pub select_one-related : {A : Type 0} (q : Db → List A) → Relates R (select_one q)
  select_one-related q = select_one-kept w.pre q

  settle_debit-related : (a : Account) (x : ℤ) → Relates R (settle_debit a x)
  unfolding settle_debit Accounts.deduct_balance
  settle_debit-related a x = elim (Bool-cases (leb_ℤ x a.balance)) [
    | inl enough ↦ rw enough (
        Relates-bind w.pre _ _
          (Relates-execute w.pre (store_balance a.id (a.balance -ℤ x)) (w.deducted a x enough))
          (λ u. Relates-pure w.pre _))
    | inr short ↦ rw short (Relates-pure w.pre _)
  ]

  pub final_status-related :
      (m : TransactionMethod) (origin : ℕ) (x : ℤ) → Relates R (final_status m origin x)
  unfolding final_status Accounts.get_with_lock
  final_status-related TransactionMethod.credit origin x = Relates-pure w.pre _
  final_status-related TransactionMethod.debit origin x =
      search (w.pre, Relates-bind, Relates-or_raise, select_one-related, settle_debit-related)

  settle_debit-IsFinal : (a : Account) (x : ℤ) → Returns IsFinal (settle_debit a x)
  unfolding settle_debit
  settle_debit-IsFinal a x =
      Returns-if (leb_ℤ x a.balance) _ _
        (Returns-bind _ _ (λ u. Returns-pure TransactionStatus.completed refl))
        (Returns-pure TransactionStatus.failed refl)

  pub final_status-IsFinal :
      (m : TransactionMethod) (origin : ℕ) (x : ℤ) → Returns IsFinal (final_status m origin x)
  unfolding final_status
  final_status-IsFinal TransactionMethod.credit origin x =
      Returns-pure TransactionStatus.completed refl
  final_status-IsFinal TransactionMethod.debit origin x =
      search (Returns-bind, settle_debit-IsFinal)

  pub create-related : (env : Env) (n : NewTransaction) → Relates R (Rows.create env n)
  unfolding Rows.create
  create-related env n = Relates-execute w.pre _ (w.inserted _)

  pub get-related : (i : ℕ) → Relates R (Rows.get i)
  unfolding Rows.get
  get-related i = select_one-related _

  -- A new row: `_process_national` without `existing_transaction_id`.
  pub process_new-related :
      (env : Env) (n : NewTransaction) → Relates R (process_national env n none)
  unfolding process_national persist
  process_new-related env n = search (w.pre, Relates-bind, final_status-related, create-related)

  pub publish-related :
      (env : Env) (t : Transaction) → Relates R (publish_international_payment env t)
  publish-related env t = publish-kept w.pre env t

  pub ruleset related_rules = (
    Relates-bind, Relates-or_raise, Relates-raise_if, Relates-pure, Relates-raise, Relates-if,
    Relates-begin, select_one-related, get-related, create-related, publish-related,
    process_new-related,
  )
