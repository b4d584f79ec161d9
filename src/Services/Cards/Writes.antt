-- ===== src/Services/Cards/Writes.antt =====
-- What `_resolve_card` (backend/app/services/transaction_service.py) writes: one card at most.
use bank_transaction_system.Base.{String, Option, none, some, ◌≡◌}
use bank_transaction_system.Models.{User, Card, Db}
use bank_transaction_system.Schemas.{CardInput}
use bank_transaction_system.Platform.{Platform}
use bank_transaction_system.Orm.{ok, Env, others_commit, Orm}
use bank_transaction_system.Orm.Relates.{
  Relates, IsPreorder, Relates-pure, Relates-raise, Relates-if, Relates-raise_if, Relates-or_raise,
  Relates-bind, Relates-execute, Relates-begin, Relates-on_integrity_error,
}
use bank_transaction_system.Crud.Reads.{select_one-kept}
use bank_transaction_system.Crud.Accounts
use bank_transaction_system.Crud.Cards
use bank_transaction_system.Crud.Cards.{insert_card, LoadedCard}
use bank_transaction_system.Services.Cards.{
  own_card, own_refetched, create_card, create_under, own_or_create, get_or_create, refetch,
  resolve_card,
}

module _ {R : Db → Db → Type 0} (pre : IsPreorder R)
    (inserted_card : (c a : Card) (d d' : Db) → insert_card c d ≡ ok (a, d') → R d d')
    ⦃orm : Orm⦄ where
  ruleset card_rules = (
    Relates-bind, Relates-or_raise, Relates-raise_if, Relates-pure, Relates-raise, Relates-if,
    Relates-begin,
  )

  own_card-related : (user : User) (l : LoadedCard) → Relates R (own_card user l)
  unfolding own_card
  own_card-related user (c, none) = search (pre, card_rules)
  own_card-related user (c, some a) = search (pre, card_rules)

  own_refetched-related : (l : Option LoadedCard) → Relates R (own_refetched l)
  unfolding own_refetched
  own_refetched-related none = search (pre, card_rules)
  own_refetched-related (some (c, none)) = search (pre, card_rules)
  own_refetched-related (some (c, some a)) = search (pre, card_rules)

  get_by_hmac-related : (h : String) → Relates R (Cards.get_by_hmac h)
  unfolding Cards.get_by_hmac
  get_by_hmac-related h = select_one-kept pre _

  -- The relation holds of what other sessions commit meanwhile too.
  module _ ⦃p : Platform⦄ (env : Env) (commits : (d : Db) → R d (env.commits d)) where
    others_commit-related : Relates R (others_commit env)
    unfolding others_commit
    others_commit-related = record { at = λ s. commits s.db }

    create_card-related : (input : CardInput) (user : User) → Relates R (create_card env input user)
    unfolding create_card create_under Accounts.get_by_user Cards.create
    create_card-related input user = Relates-bind pre _ _ (select_one-kept pre _) (λ found.
        Relates-bind pre _ _ (Relates-or_raise pre found _) (λ a.
          Relates-bind pre _ _ others_commit-related
            (λ u. Relates-execute pre _ (inserted_card _))))

    own_or_create-related :
        (input : CardInput) (user : User) (l : Option LoadedCard)
        → Relates R (own_or_create env input user l)
    unfolding own_or_create
    own_or_create-related input user none = create_card-related input user
    own_or_create-related input user (some l) = own_card-related user l

    refetch-related : (input : CardInput) → Relates R (refetch env input)
    unfolding refetch
    refetch-related input =
        search (pre, card_rules, others_commit-related, get_by_hmac-related, own_refetched-related)

    pub resolve_card-related :
        (input : CardInput) (user : User) → Relates R (resolve_card env input user)
    unfolding resolve_card get_or_create
    resolve_card-related input user =
        Relates-on_integrity_error pre _ _
          (Relates-begin pre _
            (Relates-bind pre _ _ (get_by_hmac-related _) (own_or_create-related input user)))
          (λ c. refetch-related input)
