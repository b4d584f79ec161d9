-- ===== src/Services/Cards.antt =====
-- `_resolve_card` of backend/app/services/transaction_service.py
pub mod Ownership
pub mod Race
pub mod Writes
use bank_transaction_system.Base.{String, Option, none, some, ◌==◌, if◌then◌else◌}
use bank_transaction_system.Models.{User, Account, Card}
use bank_transaction_system.Schemas.{CardInput}
use bank_transaction_system.Platform.{Platform, hmac_pan, last4}
use bank_transaction_system.Orm.{
  attribute_error, invalid_request, Action, Env, pure, raise, or_raise, ◌>>=◌, ◌>>◌, others_commit,
  on_integrity_error, Orm, begin,
}
use bank_transaction_system.Crud.Accounts
use bank_transaction_system.Crud.Cards
use bank_transaction_system.Crud.Cards.{LoadedCard}
use bank_transaction_system.Services.Failures.{card_forbidden, account_missing}

-- `card.account.user_id != current_user.id`
unfoldable pub own_card : User → LoadedCard → Action Card
own_card user (card, none) = raise attribute_error
own_card user (card, some account) =
    if account.user_id == user.id then pure card else raise card_forbidden

-- The check after the card is fetched again. The rollback has expired every object of the session,
-- `current_user` too: reading `current_user.id` would load its row outside of an awaited call, and
-- raises MissingGreenlet, which is an InvalidRequestError. `card.account` is read before it.
unfoldable pub own_refetched : Option LoadedCard → Action Card
own_refetched none = raise card_forbidden
own_refetched (some (card, none)) = raise attribute_error
own_refetched (some (card, some account)) = raise invalid_request

module _ ⦃orm : Orm⦄ ⦃p : Platform⦄ where
  abbrev pub pan_hmac : CardInput → String
  pan_hmac input = hmac_pan input.number p.pan_hmac_key

  -- The card's row under an account. Another session may commit before it is inserted.
  unfoldable pub create_under : Env → CardInput → Account → Action Card
  create_under env input account = do
    others_commit env
    Cards.create env (record {
      account_id = account.id;
      card_type = input.card_type;
      number_hmac = pan_hmac input;
      number_last4 = last4 input.number;
      expiration_month = input.expiration_month;
      expiration_year = input.expiration_year;
    })

  -- The card was not found: it is created under the user's account.
  unfoldable pub create_card : Env → CardInput → User → Action Card
  create_card env input user = do
    found ← Accounts.get_by_user user.id
    account ← or_raise found account_missing
    create_under env input account

  unfoldable pub own_or_create : Env → CardInput → User → Option LoadedCard → Action Card
  own_or_create env input user none = create_card env input user
  own_or_create env input user (some loaded) = own_card user loaded

  unfoldable pub get_or_create : Env → CardInput → User → Action Card
  get_or_create env input user = do
    found ← Cards.get_by_hmac (pan_hmac input)
    own_or_create env input user found

  -- The rollback has taken the rows that this session wrote, not those that others committed.
  unfoldable pub refetch : Env → CardInput → Action Card
  refetch env input = do
    others_commit env
    found ← begin (Cards.get_by_hmac (pan_hmac input))
    own_refetched found

  -- `_resolve_card`
  unfoldable pub resolve_card : Env → CardInput → User → Action Card
  resolve_card env input user s =
      on_integrity_error (begin (get_or_create env input user) s) (λ c. refetch env input)
