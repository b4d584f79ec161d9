-- ===== src/Crud/Written.antt =====
-- What a statement of the crud modules has written when it violates no constraint.
use bank_transaction_system.Base.{ℕ, Bool, true, ◌≡◌, arith, [], ◌∷◌, ◌++◌}
use bank_transaction_system.Base.Rows.{update_rows, exists_row}
use bank_transaction_system.Base.Int.{ℤ}
use bank_transaction_system.Models.{Account, Card, Transaction, TransactionStatus, Db}
use bank_transaction_system.Orm.{ok}
use bank_transaction_system.Crud.Statements.{numeric_fits}
use bank_transaction_system.Crud.Accounts.{insert_account, store_balance, has_id, with_balance}
use bank_transaction_system.Crud.Cards.{insert_card}
use bank_transaction_system.Crud.Transactions.{
  insert_transaction, set_status, in_status, with_status,
}

pub insert_account_written :
    (x a : Account) (d d' : Db)
    → insert_account x d ≡ ok (a, d')
    → (a ≡ x) × (d' ≡ record d { accounts = d.accounts ++ (x ∷ []) })
unfolding insert_account
insert_account_written x a d d' e = ground arith

pub insert_card_written :
    (x a : Card) (d d' : Db)
    → insert_card x d ≡ ok (a, d')
    → (a ≡ x) × (d' ≡ record d { cards = d.cards ++ (x ∷ []) })
unfolding insert_card
insert_card_written x a d d' e = ground arith

pub insert_transaction_written :
    (x a : Transaction) (d d' : Db)
    → insert_transaction x d ≡ ok (a, d')
    → (a ≡ x) × (d' ≡ record d { transactions = d.transactions ++ (x ∷ []) })
unfolding insert_transaction
insert_transaction_written x a d d' e = ground arith

pub store_balance_written :
    (i : ℕ) (v : ℤ) (u : Unit {0}) (d d' : Db)
    → store_balance i v d ≡ ok (u, d')
    → (numeric_fits v ≡ true)
      × (d' ≡ record d { accounts = update_rows (has_id i) (with_balance v) d.accounts })
unfolding store_balance
store_balance_written i v u d d' e = ground arith

pub set_status_written :
    (i : ℕ) (new expected : TransactionStatus) (b : Bool) (d d' : Db)
    → set_status i new expected d ≡ ok (b, d')
    → (b ≡ exists_row (in_status i expected) d.transactions)
      × (d' ≡ record d {
        transactions = update_rows (in_status i expected) (with_status new) d.transactions;
      })
unfolding set_status
set_status_written i new expected b d d' e = ground arith
