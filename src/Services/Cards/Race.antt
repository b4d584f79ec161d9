-- ===== src/Services/Cards/Race.antt =====
-- The race on a card's number in `_resolve_card` (backend/app/services/transaction_service.py):
-- another session creates the card between the look-up and the insertion.
use bank_transaction_system.Base.{◌≡◌, refl, false, some, [], ◌∷◌}
use bank_transaction_system.Base.Rows.{select, find, exists_row, select_first, select_first_exists}
use bank_transaction_system.Models.{User, Account, Card, Db}
use bank_transaction_system.Schemas.{CardInput}
use bank_transaction_system.Platform.{Platform}
use bank_transaction_system.Orm.{
  err, integrity, invalid_request, cards_number_hmac, Session, Env, Orm, others_commit,
}
use bank_transaction_system.Models.{Table}
use bank_transaction_system.Crud.Statements.{begun}
use bank_transaction_system.Crud.Accounts
use bank_transaction_system.Crud.Cards
use bank_transaction_system.Crud.Cards.{LoadedCard, insert_card}
use bank_transaction_system.Services.Cards.{
  pan_hmac, own_refetched, own_or_create, create_card, create_under, get_or_create, refetch,
  resolve_card,
}

module _ ⦃orm : Orm⦄ ⦃p : Platform⦄ (env : Env) (input : CardInput) (user : User) (s : Session)
    (idle : s.in_transaction ≡ false) where
  -- The database once the other session has committed.
  abbrev pub raced : Db
  raced = env.commits s.db

  duplicate_refused :
      (a : Account) (c : Card)
      → select (Cards.has_hmac (pan_hmac input)) s.db.cards ≡ []
      → select (Accounts.has_user user.id) s.db.accounts ≡ a ∷ []
      → exists_row (Cards.has_id (env.uuid4 Table.cards)) raced.cards ≡ false
      → select (Cards.has_hmac (pan_hmac input)) raced.cards ≡ c ∷ []
      → get_or_create env input user (begun s)
        ≡ (err (integrity cards_number_hmac), begun (record s { db = raced }))
  unfolding get_or_create own_or_create create_card create_under others_commit insert_card
  duplicate_refused a c absent own fresh theirs = simp (
    Cards.get_by_hmac_lem,
    absent,
    Accounts.get_by_user_lem,
    own,
    Cards.create_lem,
    fresh,
    select_first_exists (Cards.has_hmac (pan_hmac input)) (Cards.has_hmac (pan_hmac input))
        raced.cards theirs (select_first (Cards.has_hmac (pan_hmac input)) raced.cards theirs),
  )

  -- On a session without a transaction, for a card that is not known and a user with one account,
  -- with a new identifier: if another session commits the card, under an account that is there,
  -- before the insertion, then nothing is inserted, and the request fails, whoever owns the card:
  -- the rollback has expired the user, whose identifier the check reads (MissingGreenlet, an
  -- InvalidRequestError).
  pub race_fails :
      (a b : Account) (c : Card)
      → select (Cards.has_hmac (pan_hmac input)) s.db.cards ≡ []
      → select (Accounts.has_user user.id) s.db.accounts ≡ a ∷ []
      → exists_row (Cards.has_id (env.uuid4 Table.cards)) raced.cards ≡ false
      → select (Cards.has_hmac (pan_hmac input)) raced.cards ≡ c ∷ []
      → find (Accounts.has_id c.account_id) raced.accounts ≡ some b
      → resolve_card env input user s
        ≡ (err invalid_request, record s { db = raced; in_transaction = false })
  unfolding resolve_card refetch others_commit own_refetched
  race_fails a b c absent own fresh theirs account =
      rw (orm.begin_idle Card (get_or_create env input user) s idle) (
        rw (duplicate_refused a c absent own fresh theirs) (
          rw
            (orm.begin_idle _ (Cards.get_by_hmac (pan_hmac input))
              (record s { db = raced; in_transaction = false }) refl)
            (simp (Cards.get_by_hmac_lem, theirs, account))))
