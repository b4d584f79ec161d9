-- ===== src/Services/Cards/Ownership.antt =====
-- `_resolve_card` (backend/app/services/transaction_service.py) hands out the user's own cards only.
use bank_transaction_system.Base.{
  ℕ, String, ◌≡◌, refl, Bool, true, false, Option, none, some, List, [], ◌∷◌, ◌&&◌, ◌==◌, map,
  Bool-cases, inl, inr, ==_refl,
}
use bank_transaction_system.Base.Rows.{
  select, find, exists_row, select_first, select_first_exists, find_holds, find_exists,
}
use bank_transaction_system.Models.{User, Account, Card, Db}
use bank_transaction_system.Schemas.{CardInput}
use bank_transaction_system.Platform.{Platform}
use bank_transaction_system.Orm.{
  Result, ok, err, integrity, Session, Action, Env, Orm, at_most_one, continue, executed, or_raise,
  others_commit, on_integrity_error, Constraint, ◌>>=◌, begin, finished,
}
use bank_transaction_system.Orm.Ends.{Ends, Ends-begin}
use bank_transaction_system.Crud.Statements.{begun}
use bank_transaction_system.Crud.Accounts
use bank_transaction_system.Crud.Cards
use bank_transaction_system.Crud.Cards.{LoadedCard, NewCard, joined, new_card, insert_card}
use bank_transaction_system.Crud.Written.{insert_card_written}
use bank_transaction_system.Services.Failures.{account_missing}
use bank_transaction_system.Services.Cards.{
  own_card, own_refetched, create_card, own_or_create, get_or_create, refetch, resolve_card,
  create_under, pan_hmac,
}

-- The row of an account, with its owner.
abbrev pub is_account_of : User → ℕ → Account → Bool
is_account_of user i a = a.id == i && a.user_id == user.id

-- The card's account stands in the database, and is the user's.
abbrev pub OwnedBy : User → Card → Db → Type 0
OwnedBy user c d = exists_row (is_account_of user c.account_id) d.accounts ≡ true

own_card-OwnedBy :
    (user : User) (c : Card) (o : Option Account) (s : Session)
    → find (Accounts.has_id c.account_id) s.db.accounts ≡ o
    → Ends (OwnedBy user) (own_card user (c, o) s)
unfolding own_card
own_card-OwnedBy user c none s e = tt
own_card-OwnedBy user c (some a) s e = elim (Bool-cases (a.user_id == user.id)) [
  | inl own ↦ rw own (
      find_exists (Accounts.has_id c.account_id) (is_account_of user c.account_id) s.db.accounts e
        (rw (find_holds (Accounts.has_id c.account_id) s.db.accounts e, own)))
  | inr other ↦ rw other tt
]

found-OwnedBy :
    (user : User) (rows : List Card) (k : Option LoadedCard → Action Card) (s : Session)
    → Ends (OwnedBy user) (k none s)
    → ((l : LoadedCard) → k (some l) ≡ own_card user l)
    → Ends (OwnedBy user) (continue (at_most_one (map (joined s.db) rows), s) k)
found-OwnedBy user [] k s h e = h
found-OwnedBy user (c ∷ []) k s h e = rw (e (joined s.db c)) (own_card-OwnedBy user c _ s refl)
found-OwnedBy user (c ∷ b ∷ rows) k s h e = tt

-- Other sessions neither remove an account nor change its owner.
abbrev pub AccountsStay : (Db → Db) → Type 0
AccountsStay f =
    (user : User) (i : ℕ) (d : Db)
    → exists_row (is_account_of user i) d.accounts ≡ true
    → exists_row (is_account_of user i) (f d).accounts ≡ true

inserted-OwnedBy :
    (user : User) (c : Card) (s : Session)
    → OwnedBy user c s.db
    → Ends (OwnedBy user) (executed s (insert_card c s.db))
inserted-OwnedBy user c s h = go (insert_card c s.db) refl
  where
    go : (r : Result (Card × Db)) → insert_card c s.db ≡ r → Ends (OwnedBy user) (executed s r)
    go (ok (a, d)) e = let w = insert_card_written c a s.db d e in rw (w.0, w.1) h
    go (err x) e = tt

module _ ⦃orm : Orm⦄ ⦃p : Platform⦄ (env : Env) (stay : AccountsStay env.commits) where
  create_under-OwnedBy :
      (input : CardInput) (user : User) (a : Account) (s : Session)
      → exists_row (is_account_of user a.id) s.db.accounts ≡ true
      → Ends (OwnedBy user) (create_under env input a s)
  unfolding create_under others_commit
  create_under-OwnedBy input user a s h =
      rw (Cards.create_lem env _ (record s { db = env.commits s.db })) (
        inserted-OwnedBy user (new_card env _) (record s { db = env.commits s.db })
          (stay user a.id s.db h))

  under_user-OwnedBy :
      (input : CardInput) (user : User) (s : Session) (rows : List Account)
      → select (Accounts.has_user user.id) s.db.accounts ≡ rows
      → Ends (OwnedBy user) (
          continue
            (at_most_one rows, s)
            (λ found. or_raise found account_missing >>= create_under env input))
  under_user-OwnedBy input user s [] e = tt
  under_user-OwnedBy input user s (a ∷ []) e = create_under-OwnedBy input user a s (
      select_first_exists (Accounts.has_user user.id) (is_account_of user a.id) s.db.accounts e
        (rw (==_refl a.id, select_first (Accounts.has_user user.id) s.db.accounts e)))
  under_user-OwnedBy input user s (a ∷ b ∷ rows) e = tt

  create_card-OwnedBy :
      (input : CardInput) (user : User) (s : Session)
      → Ends (OwnedBy user) (create_card env input user s)
  unfolding create_card
  create_card-OwnedBy input user s = rw (Accounts.get_by_user_lem user.id s) (
      under_user-OwnedBy input user (begun s) (select (Accounts.has_user user.id) s.db.accounts)
        refl)

  get_or_create-OwnedBy :
      (input : CardInput) (user : User) (s : Session)
      → Ends (OwnedBy user) (get_or_create env input user s)
  unfolding get_or_create own_or_create
  get_or_create-OwnedBy input user s = rw (Cards.get_by_hmac_lem (pan_hmac input) s) (
      found-OwnedBy user _ (own_or_create env input user) (begun s)
        (create_card-OwnedBy input user (begun s)) (λ l. refl))

  refetched-OwnedBy :
      (user : User) (s : Session) (found : Option LoadedCard)
      → Ends (OwnedBy user) (own_refetched found s)
  unfolding own_refetched
  refetched-OwnedBy user s none = tt
  refetched-OwnedBy user s (some (c, none)) = tt
  refetched-OwnedBy user s (some (c, some a)) = tt

  fetched-OwnedBy :
      (user : User) (s : Session) (rows : List Card)
      → Ends
          (OwnedBy user)
          (continue (finished s (at_most_one (map (joined s.db) rows), begun s)) own_refetched)
  fetched-OwnedBy user s [] = refetched-OwnedBy user (record s { in_transaction = false }) none
  fetched-OwnedBy user s (c ∷ []) =
      refetched-OwnedBy user (record s { in_transaction = false }) (some (joined s.db c))
  fetched-OwnedBy user s (c ∷ b ∷ rows) = tt

  fetch_again-OwnedBy :
      (h : String) (user : User) (s : Session)
      → Ends (OwnedBy user) (continue (begin (Cards.get_by_hmac h) s) own_refetched)
  fetch_again-OwnedBy h user s = elim (Bool-cases s.in_transaction) [
    | inl busy ↦ rw (orm.begin_begun (Option LoadedCard) (Cards.get_by_hmac h) s busy) tt
    | inr idle ↦ rw (orm.begin_idle (Option LoadedCard) (Cards.get_by_hmac h) s idle) (
        rw (Cards.get_by_hmac_lem h (begun s))
          (fetched-OwnedBy user s (select (Cards.has_hmac h) s.db.cards)))
  ]

  refetch-OwnedBy :
      (input : CardInput) (user : User) (s : Session) → Ends (OwnedBy user) (refetch env input s)
  unfolding refetch others_commit
  refetch-OwnedBy input user s =
      fetch_again-OwnedBy (pan_hmac input) user (record s { db = env.commits s.db })

  on_integrity-OwnedBy :
      (user : User) (r : Result Card × Session) (handler : Constraint → Action Card)
      → Ends (OwnedBy user) r
      → ((c : Constraint) (s : Session) → Ends (OwnedBy user) (handler c s))
      → Ends (OwnedBy user) (on_integrity_error r handler)
  on_integrity-OwnedBy user (ok c, s) handler h k = h
  on_integrity-OwnedBy user (err (integrity c), s) handler h k = k c s
  on_integrity-OwnedBy user (err _, s) handler h k = tt

  -- If other sessions keep the accounts and their owners, a card that is returned belongs to an
  -- account of the user, whether it was found or created.
  pub resolve_card-OwnedBy :
      (input : CardInput) (user : User) (s : Session)
      → Ends (OwnedBy user) (resolve_card env input user s)
  unfolding resolve_card
  resolve_card-OwnedBy input user s =
      on_integrity-OwnedBy user _ _
        (Ends-begin (OwnedBy user) _ s (get_or_create-OwnedBy input user (begun s)))
        (λ c. refetch-OwnedBy input user)
