-- ===== src/System/Funds.antt =====
-- The ledgers of the accounts over a run of the whole program.
use bank_transaction_system.Base.{ℕ, ◌≡◌, refl, arith, Bool, true, not}
use bank_transaction_system.Base.Int.{◌≤ℤ◌}
use bank_transaction_system.Models.{User, Db}
use bank_transaction_system.Platform.{Platform}
use bank_transaction_system.Orm.{Action, Env, Orm}
use bank_transaction_system.Orm.Relates.{Relates, IsPreorder, Relates-bind}
use bank_transaction_system.Crud.Accounts.{new_account}
use bank_transaction_system.Services.Transactions.Ledger.{ledger, balance_of, paid_by}
use bank_transaction_system.Services.Transactions.Ledger.Sums.{
  ≤ℤ-refl, credit-ledger, insert_account-ledger, insert_card-ledger,
}
use bank_transaction_system.Schemas.{TransactionCreate}
use bank_transaction_system.Services.Cards.Writes.{resolve_card-related}
use bank_transaction_system.Services.Transactions.{create_transaction}
use bank_transaction_system.Services.Transactions.Ledger.Spends.{Conserves, Conserves-pre}
use bank_transaction_system.Services.Transactions.Ledger.Created.{
  payment-kept, after_commit-kept, create_transaction-kept,
}
use bank_transaction_system.Services.Transactions.Ledger.Claimed.{process_scheduled-ledger}
use bank_transaction_system.System.Untouched.{Untouched}
use bank_transaction_system.System.Statements.{Credits}
use bank_transaction_system.System.Requests.{Request, is_deposit, SerialSteps, SerialSteps-Steps}
use bank_transaction_system.System.Runs.{Steps-related}
use bank_transaction_system.System.Money.{RespectsMoney, RespectsMoney-Respects}

module _ (i : ℕ) where
  abbrev Grows : Db → Db → Type 0
  Grows d d' = ledger i d ≤ℤ ledger i d'

  Grows-trans : (c d e : Db) → Grows c d → Grows d e → Grows c e
  Grows-trans c d e h k = omega arith

  Grows-pre : IsPreorder Grows
  Grows-pre = record {
    reflexive = λ d. ≤ℤ-refl (ledger i d);
    transitive = λ {c} {d} {e}. Grows-trans c d e;
  }

  Grows-same : (d d' : Db) → ledger i d' ≡ ledger i d → Grows d d'
  Grows-same d d' e = rw e (≤ℤ-refl (ledger i d))

  Grows-kept : {A : Type 0} (m : Action A) → Relates (Conserves i) m → Relates Grows m
  Grows-kept m k = record { at = λ s. Grows-same s.db (m s).1.db (k.at s) }

  create_transaction-Grows :
      ⦃orm : Orm⦄ ⦃p : Platform⦄ (env : Env)
      → ((d : Db) → Grows d (env.commits d))
      → (payload : TransactionCreate) (user : User)
      → Relates Grows (create_transaction env payload user)
  unfolding create_transaction
  create_transaction-Grows env commits payload user =
      Relates-bind Grows-pre _ _
        (resolve_card-related Grows-pre
          (λ c a d d' e. Grows-same d d' (insert_card-ledger i c a d d' e)) env commits payload.card
          user)
        (λ card.
          Relates-bind Grows-pre _ _ (Grows-kept _ (payment-kept i env payload card))
            (λ routed. Grows-kept _ (after_commit-kept i _ routed)))

  Untouched-ledger : (d d' : Db) → Untouched d d' → ledger i d' ≡ ledger i d
  unfolding balance_of paid_by
  Untouched-ledger d d' same = rw same.accounts (rw same.transactions)

  Grows-RespectsMoney : RespectsMoney Grows
  Grows-RespectsMoney = record {
    pre = Grows-pre;
    payments = record {
      created = create_transaction-Grows;
      processed = λ env k. Grows-kept _ (record { at = process_scheduled-ledger i env k });
    };
    untouched = λ d d' same. Grows-same d d' (Untouched-ledger d d' same);
    opened = λ env u a d d' e.
        Grows-same d d' (insert_account-ledger i (new_account env u) a d d' refl e);
  }

  Grows-Credits : Credits Grows
  Grows-Credits = record {
    credited = λ a x positive u d d' one e. credit-ledger a x positive u d d' one e i;
  }

module _ ⦃orm : Orm⦄ ⦃p : Platform⦄ where
  -- Over any run of requests and tasks that are served one after another, with no other session
  -- that commits meanwhile, the ledger of an account never falls: what the account holds and what
  -- its completed debits have paid is at least what it was.
  pub run-ledger :
      (i : ℕ) (allowed : Request → Bool) (d d' : Db)
      → SerialSteps allowed d d'
      → ledger i d ≤ℤ ledger i d'
  run-ledger i allowed d d' run =
      Steps-related (RespectsMoney-Respects (Grows-RespectsMoney i))
        (λ r may deposit. Grows-Credits i) (SerialSteps-Steps allowed run)

deposited_not : (b : Bool) → not b ≡ true → b ≡ true → ⊥
deposited_not b h k = ground (arith, h, k)

module _ (i : ℕ) where
  Conserves-RespectsMoney : RespectsMoney (Conserves i)
  Conserves-RespectsMoney = record {
    pre = Conserves-pre i;
    payments = record {
      created = λ env commits payload user. record {
        at = λ s. create_transaction-kept i env payload user s commits;
      };
      processed = λ env k. record { at = process_scheduled-ledger i env k };
    };
    untouched = Untouched-ledger i;
    opened = λ env u a d d' e. insert_account-ledger i (new_account env u) a d d' refl e;
  }

  -- A run without deposits has none to account for.
  no_deposit :
      (r : Request) → not (is_deposit r) ≡ true → is_deposit r ≡ true → Credits (Conserves i)
  no_deposit r other deposit = elim (deposited_not (is_deposit r) other deposit) [ ]

  -- Over any run of requests and tasks that are no deposits, served one after another, with no
  -- other session that commits meanwhile, the ledger of every account stays: what it holds and
  -- what its completed debits have paid, together, do not change. Only a deposit brings money in,
  -- and none is lost.
  pub run-Conserves :
      ⦃orm : Orm⦄ ⦃p : Platform⦄ (d d' : Db)
      → SerialSteps (λ r. not (is_deposit r)) d d'
      → ledger i d' ≡ ledger i d
  run-Conserves d d' run =
      Steps-related (RespectsMoney-Respects Conserves-RespectsMoney) no_deposit
        (SerialSteps-Steps (λ r. not (is_deposit r)) run)
