-- ===== src/Api/Transactions/Checks.antt =====
-- The payload that backend/app/api/api_v1/endpoints/transactions.py accepts, and the CHECKs of the
-- tables that it is written to.
use bank_transaction_system.Base.{ℕ, String, ◌≡◌, Bool, true, false, some, arith, leb, ◌&&◌}
use bank_transaction_system.Base.Int.{pos, leb_ℤ}
use bank_transaction_system.Models.{Card, Transaction, TransactionStatus, Db}
use bank_transaction_system.Schemas.{TransactionCreate}
use bank_transaction_system.Schemas.Validators.{Today, TransactionBody, validate_transaction}
use bank_transaction_system.Schemas.Accepted.{validate-IsAccepted}
use bank_transaction_system.Orm.{err, integrity, check, Env}
use bank_transaction_system.Crud.Cards.{insert_card, new_card}
use bank_transaction_system.Crud.Transactions.{insert_transaction, new_transaction}
use bank_transaction_system.Services.Transactions.{row_of}

card-checked :
    (c : Card) (d : Db)
    → (leb 1 c.expiration_month && leb c.expiration_month 12) ≡ true
    → leb 26 c.expiration_year ≡ true
    → insert_card c d ≡ err (integrity check)
    → ⊥
unfolding insert_card
card-checked c d month year e = ground (arith, month, year, e)

row-checked :
    (t : Transaction) (d : Db)
    → leb_ℤ t.amount (pos 0) ≡ false
    → insert_transaction t d ≡ err (integrity check)
    → ⊥
unfolding insert_transaction
row-checked t d positive e = ground (arith, positive, e)

module _ (is_digit : ℕ → Bool) (today : Today) (now : ℕ) (body : TransactionBody)
    (payload : TransactionCreate)
    (accepted : validate_transaction is_digit today now body ≡ some payload) where
  -- Where the validators accept a payment's body, neither the card's row nor the transaction's,
  -- with the payload's expiry and amount and anything else, is refused by a CHECK of its table.
  pub accepted_rows_pass_checks :
      (env : Env) (card : Card) (account_id : ℕ) (hmac last4 : String) (status : TransactionStatus)
      (d : Db)
      → ¬ (
          insert_card
            (new_card env (record {
              account_id = account_id;
              card_type = payload.card.card_type;
              number_hmac = hmac;
              number_last4 = last4;
              expiration_month = payload.card.expiration_month;
              expiration_year = payload.card.expiration_year;
            }))
            d
          ≡ err (integrity check))
        × ¬ (
            insert_transaction (new_transaction env (row_of payload card status)) d
            ≡ err (integrity check))
  accepted_rows_pass_checks env card account_id hmac last4 status d =
      let a = validate-IsAccepted is_digit today now body payload accepted in
      (λ e. card-checked _ d a.month a.year e, λ e. row-checked _ d a.positive e)
