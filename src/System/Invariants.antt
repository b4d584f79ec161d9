-- ===== src/System/Invariants.antt =====
-- What every run of the program keeps, as instances of what its statements respect.
use bank_transaction_system.Base.{
  ◌≡◌, refl, false, List, [], ◌∷◌, Bool, Bool-cases, inl, inr, arith,
}
use bank_transaction_system.Base.Rows.{All, All-append, select}
use bank_transaction_system.Base.Int.{ℤ, pos, leb_ℤ, ◌+ℤ◌, ◌≤ℤ◌, int_laws}
use bank_transaction_system.Models.{Db}
use bank_transaction_system.Platform.{Platform}
use bank_transaction_system.Orm.{Orm}
use bank_transaction_system.Crud.Statements.{numeric_fits}
use bank_transaction_system.Crud.Accounts.{has_id, new_account}
use bank_transaction_system.Crud.Written.{insert_account_written, store_balance_written}
use bank_transaction_system.Services.Transactions.Writes.{Writes}
use bank_transaction_system.Services.Transactions.Balances.{
  NonNegative, Keeps, Keeps-Writes, Keeps-RespectsMoves, store_balance-Keeps,
}
use bank_transaction_system.Services.Transactions.Lifecycle.{
  Life, Life-Writes, Life-RespectsMoves, Evolves, Evolves-refl,
}
use bank_transaction_system.Integrity.{WellFormed}
use bank_transaction_system.Integrity.Registered.{
  insert_user-WellFormed, insert_account-WellFormed, store_balance-WellFormed,
}
use bank_transaction_system.Integrity.Paid.{
  insert_card-WellFormed, insert_transaction-WellFormed, set_status-WellFormed,
}
use bank_transaction_system.Integrity.Logged.{
  insert_audit_log-WellFormed, insert_history-WellFormed, upsert_session-WellFormed,
  delete_rows-WellFormed,
}
use bank_transaction_system.Integrity.Archived.{archive-WellFormed}
use bank_transaction_system.System.Statements.{Respects, Credits, Writes-Payments}
use bank_transaction_system.System.Money.{RespectsMoney, RespectsMoney-Respects}
use bank_transaction_system.System.Requests.{Request, Steps}
use bank_transaction_system.System.Runs.{Steps-related}

abbrev KeepsWellFormed : Db → Db → Type 0
KeepsWellFormed d d' = WellFormed d → WellFormed d'

KeepsWellFormed-Writes : Writes KeepsWellFormed
KeepsWellFormed-Writes = record {
  pre = record { reflexive = λ d h. h; transitive = λ f g h. g (f h) };
  inserted_card = insert_card-WellFormed;
  inserted = insert_transaction-WellFormed;
  deducted = λ a x enough u d d' e. store_balance-WellFormed _ _ u d d' e;
}

KeepsWellFormed-Respects : Respects KeepsWellFormed
unfolding numeric_fits
KeepsWellFormed-Respects = record {
  pre = KeepsWellFormed-Writes.pre;
  payments =
      Writes-Payments KeepsWellFormed-Writes
        (λ i new expected follows b d d' e. set_status-WellFormed i new expected b d d' e);
  inserted_user = insert_user-WellFormed;
  opened = λ env i a d d' e. insert_account-WellFormed _ a d d' refl e;
  logged = insert_audit_log-WellFormed;
  upserted = upsert_session-WellFormed;
  recorded = insert_history-WellFormed;
  deleted = λ row d. delete_rows-WellFormed _ d;
  archived = archive-WellFormed;
}

KeepsWellFormed-Credits : Credits KeepsWellFormed
KeepsWellFormed-Credits = record {
  credited = λ a x positive u d d' one e. store_balance-WellFormed _ _ u d d' e;
}

select-All {κ} :
    {A : Type 0} (P : A → Type κ) (q : A → Bool) (rows : List A) {a : A} {rest : List A}
    → select q rows ≡ a ∷ rest
    → All P rows
    → P a
unfolding select
select-All P q [] e h = cc
select-All P q (x ∷ rows) e h = elim (Bool-cases (q x)) [
  | inl kept ↦ let same : x ≡ _ = ground (arith, e, kept) in coe 0 1 (k. P (same k)) h.0
  | inr dropped ↦ select-All P q rows (rw dropped at e) h.1
]

sum_nonneg : (b x : ℤ) → pos 0 ≤ℤ b → leb_ℤ x (pos 0) ≡ false → pos 0 ≤ℤ b +ℤ x
sum_nonneg b x h k = grind int_laws

Keeps-RespectsMoney : RespectsMoney Keeps
Keeps-RespectsMoney = record {
  pre = Keeps-Writes.pre;
  payments = Writes-Payments Keeps-Writes Keeps-RespectsMoves;
  untouched = λ d d' same h. rw same.accounts h;
  opened = λ env i a d d' e h.
      let new = new_account env i in
      rw ((insert_account_written new a d d' e).1)
        (All-append _ d.accounts (new ∷ []) h (omega arith, tt));
}

Keeps-Credits : Credits Keeps
Keeps-Credits = record {
  credited = λ a x positive u d d' one e h.
      store_balance-Keeps a.id (a.balance +ℤ x) u d d'
        (sum_nonneg a.balance x (select-All _ (has_id a.id) d.accounts one h) positive) e h;
}

Life-RespectsMoney : RespectsMoney Life
Life-RespectsMoney = record {
  pre = Life-Writes.pre;
  payments = Writes-Payments Life-Writes Life-RespectsMoves;
  untouched = λ d d' same. rw same.transactions (Evolves-refl d.transactions);
  opened =
      λ env i a d d' e. rw ((insert_account_written _ a d d' e).1) (Evolves-refl d.transactions);
}

Life-Credits : Credits Life
Life-Credits = record {
  credited = λ a x positive u d d' one e.
      rw ((store_balance_written _ _ u d d' e).1) (Evolves-refl d.transactions);
}

module _ ⦃orm : Orm⦄ ⦃p : Platform⦄ where
  -- If the keys, references and checks of the tables hold, one session for each user and one
  -- archived copy for each transaction among them, they hold after every run: whatever requests
  -- and tasks are served, with whatever outcomes, and whatever runs of requests other sessions
  -- commit before a user's or a card's row is inserted or after that insertion is refused. No
  -- other session commits while the archive is written.
  pub run-WellFormed :
      (allowed : Request → Bool) (d d' : Db) → Steps allowed d d' → WellFormed d → WellFormed d'
  run-WellFormed allowed d d' run h =
      Steps-related KeepsWellFormed-Respects (λ r may deposit. KeepsWellFormed-Credits) run h

  -- If no account is overdrawn, none is after any run of requests and tasks, with runs of requests
  -- that other sessions commit before a user's or a card's row is inserted or after that insertion
  -- is refused.
  pub run-NonNegative :
      (allowed : Request → Bool) (d d' : Db) → Steps allowed d d' → NonNegative d → NonNegative d'
  run-NonNegative allowed d d' run h =
      Steps-related (RespectsMoney-Respects Keeps-RespectsMoney) (λ r may deposit. Keeps-Credits)
        run h

  -- Any run of requests and tasks, with runs of requests that other sessions commit before a
  -- user's or a card's row is inserted or after that insertion is refused, refines the life of a
  -- transaction: every row stays in its place, no column but the status changes, and the status
  -- moves along the transitions of `may_follow`.
  pub run-Evolves :
      (allowed : Request → Bool) (d d' : Db)
      → Steps allowed d d'
      → Evolves d.transactions d'.transactions
  run-Evolves allowed d d' run =
      Steps-related (RespectsMoney-Respects Life-RespectsMoney) (λ r may deposit. Life-Credits) run
