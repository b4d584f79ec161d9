-- ===== src/Services/Transactions/Writes/Created.antt =====
-- What `create_transaction` (backend/app/services/transaction_service.py) writes, with `_resolve_card`.
use bank_transaction_system.Base.{ℕ, Option, none, some}
use bank_transaction_system.Models.{User, Card, TransactionMethod, Db}
use bank_transaction_system.Schemas.{TransactionCreate}
use bank_transaction_system.Platform.{Platform}
use bank_transaction_system.Orm.{Env, Orm}
use bank_transaction_system.Orm.Relates.{Relates, Relates-pure}
use bank_transaction_system.Services.Cards.Writes.{resolve_card-related}
use bank_transaction_system.Services.Transactions.{
  Routed, after_commit, check_reversal, schedule, queue_international, pay_national, branch, route,
  create_transaction,
}
use bank_transaction_system.Services.Transactions.Writes.{Writes, related_rules}

module _ {R : Db → Db → Type 0} (w : Writes R) ⦃orm : Orm⦄ where
  check_reversal-related : (o : Option ℕ) → Relates R (check_reversal o)
  unfolding check_reversal
  check_reversal-related none = Relates-pure w.pre tt
  check_reversal-related (some i) = search (w.pre, related_rules)

  branch-related :
      (env : Env) (payload : TransactionCreate) (card : Card) → Relates R (branch env payload card)
  unfolding branch schedule queue_international pay_national
  branch-related env payload card = search (w.pre, related_rules)

  after_commit-related : (m : TransactionMethod) (r : Routed) → Relates R (after_commit m r)
  unfolding after_commit
  after_commit-related m (Routed.returned t) = Relates-pure w.pre t
  after_commit-related m (Routed.processed t) = search (w.pre, related_rules)

  -- The relation holds of what other sessions commit meanwhile too.
  module _ ⦃p : Platform⦄ (env : Env) (commits : (d : Db) → R d (env.commits d)) where
    pub create_transaction-related :
        (payload : TransactionCreate) (user : User)
        → Relates R (create_transaction env payload user)
    unfolding create_transaction route
    create_transaction-related payload user = search (
      w.pre,
      related_rules,
      resolve_card-related w.pre w.inserted_card env commits,
      check_reversal-related,
      branch-related,
      after_commit-related,
    )
