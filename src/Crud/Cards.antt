-- ===== src/Crud/Cards.antt =====
-- backend/app/crud/card.py
use bank_transaction_system.Base.{
  ℕ, String, ◌≡◌, Bool, Option, List, [], ◌∷◌, ◌++◌, ◌==◌, str_eq, if◌then◌else◌, not, ◌&&◌, leb,
  map,
}
use bank_transaction_system.Base.Rows.{select, find, exists_row}
use bank_transaction_system.Models.{Account, Card, CardType, Db, Table}
use bank_transaction_system.Orm.{
  ok, err, integrity, primary_key, foreign_key, check, cards_number_hmac, Action, Session, Env,
  Statement, executed, Orm, execute, at_most_one,
}
use bank_transaction_system.Crud.Accounts
use bank_transaction_system.Crud.Statements.{begun, select_one, select_one_lem, select_all}

abbrev pub has_id : ℕ → Card → Bool
has_id i c = c.id == i

abbrev pub has_hmac : String → Card → Bool
has_hmac h c = str_eq c.number_hmac h

abbrev pub has_account : ℕ → Card → Bool
has_account a c = c.account_id == a

-- A card with `card.account`, which `joinedload` fetches beside it.
abbrev pub LoadedCard : Type 0
LoadedCard = Card × Option Account

abbrev pub joined : Db → Card → LoadedCard
joined d c = (c, find (Accounts.has_id c.account_id) d.accounts)

-- the columns' constraints: the two keys, the account, and the two CHECKs on the expiry
unfoldable pub insert_card : Card → Statement Card
insert_card c d =
    if exists_row (has_id c.id) d.cards
    then err (integrity primary_key)
    else if exists_row (has_hmac c.number_hmac) d.cards
    then err (integrity cards_number_hmac)
    else if not (exists_row (Accounts.has_id c.account_id) d.accounts)
    then err (integrity foreign_key)
    else if not (leb 1 c.expiration_month && leb c.expiration_month 12)
    then err (integrity check)
    else if not (leb 26 c.expiration_year)
    then err (integrity check)
    else ok (c, record d { cards = d.cards ++ (c ∷ []) })

-- The keyword arguments of `create`.
pub record NewCard : Type 0 where
  pub account_id : ℕ
  pub card_type : CardType
  pub number_hmac : String
  pub number_last4 : String
  pub expiration_month : ℕ
  pub expiration_year : ℕ

abbrev pub new_card : Env → NewCard → Card
new_card env n = record {
  id = env.uuid4 Table.cards;
  account_id = n.account_id;
  card_type = n.card_type;
  number_hmac = n.number_hmac;
  number_last4 = n.number_last4;
  expiration_month = n.expiration_month;
  expiration_year = n.expiration_year;
  created_at = env.now;
}

module _ ⦃orm : Orm⦄ where
  unfoldable pub get : ℕ → Action (Option LoadedCard)
  get card_id = select_one (λ d. map (joined d) (select (has_id card_id) d.cards))

  unfoldable pub get_by_hmac : String → Action (Option LoadedCard)
  get_by_hmac number_hmac = select_one (λ d. map (joined d) (select (has_hmac number_hmac) d.cards))

  unfoldable pub get_all_by_account : ℕ → Action (List Card)
  get_all_by_account account_id = select_all (λ d. select (has_account account_id) d.cards)

  unfoldable pub create : Env → NewCard → Action Card
  create env n = execute (insert_card (new_card env n))

  pub get_by_hmac_lem :
      (h : String) (s : Session)
      → get_by_hmac h s
        ≡ (at_most_one (map (joined s.db) (select (has_hmac h) s.db.cards)), begun s)
  unfolding get_by_hmac
  get_by_hmac_lem h s = select_one_lem (λ d. map (joined d) (select (has_hmac h) d.cards)) s

  pub create_lem :
      (env : Env) (n : NewCard) (s : Session)
      → create env n s ≡ executed s (insert_card (new_card env n) s.db)
  unfolding create
  create_lem env n s = orm.execute_lem Card (insert_card (new_card env n)) s
