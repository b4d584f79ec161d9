-- ===== src/Services/Queries/Pages.antt =====
-- The lists of transactions (`list_transactions_admin` and `list_account_transactions_for_customer`
-- of backend/app/services/transaction_service.py): which rows they have, in which order, and how
-- many.
use bank_transaction_system.Base.{
  ℕ, zero, suc, ◌≤◌, ◌≡◌, Bool, true, false, List, [], ◌∷◌, ◌==◌, arith, Bool-cases, inl, inr, ltb,
}
use bank_transaction_system.Base.Rows.{select, All, take, drop, length}
use bank_transaction_system.Models.{User, Account, Transaction}
use bank_transaction_system.Schemas.{TransactionListFilters}
use bank_transaction_system.Orm.{ok, err, Session, Orm}
use bank_transaction_system.Crud.Statements.{begun, select_all_lem}
use bank_transaction_system.Crud.Accounts
use bank_transaction_system.Crud.Transactions as Rows
use bank_transaction_system.Crud.Transactions.{insert_by_date, newest_first, page, matches}
use bank_transaction_system.Services.Failures.{access_denied}
use bank_transaction_system.Services.Queries.{
  list_account_transactions_for_customer, list_transactions_admin,
}

module _ {A : Type 0} where
  All-map {κ} : (P Q : A → Type κ) (rows : List A) → ((x : A) → P x → Q x) → All P rows → All Q rows
  All-map P Q [] f h = tt
  All-map P Q (x ∷ rows) f h = (f x h.0, All-map P Q rows f h.1)

  All-take {κ} : (P : A → Type κ) (n : ℕ) (rows : List A) → All P rows → All P (take n rows)
  All-take P zero rows h = tt
  All-take P (suc n) [] h = tt
  All-take P (suc n) (x ∷ rows) h = (h.0, All-take P n rows h.1)

  All-drop {κ} : (P : A → Type κ) (n : ℕ) (rows : List A) → All P rows → All P (drop n rows)
  All-drop P zero rows h = h
  All-drop P (suc n) [] h = tt
  All-drop P (suc n) (x ∷ rows) h = All-drop P n rows h.1

  All-select : (p : A → Bool) (rows : List A) → All (λ x. p x ≡ true) (select p rows)
  unfolding select
  All-select p [] = tt
  All-select p (x ∷ rows) = elim (Bool-cases (p x)) [
    | inl holds ↦ rw holds (holds, All-select p rows)
    | inr fails ↦ rw fails (All-select p rows)
  ]

  length-take : (n : ℕ) (rows : List A) → length (take n rows) ≤ n
  length-take zero rows = omega arith
  length-take (suc n) [] = omega arith
  length-take (suc n) (x ∷ rows) = omega (arith, length-take n rows)

-- Every row is at least as new as those behind it.
abbrev pub IsNewestFirst : List Transaction → Type 0
IsNewestFirst [] = Unit
IsNewestFirst (t ∷ rows) =
    All (λ (u : Transaction). u.created_at ≤ t.created_at) rows × IsNewestFirst rows

All-insert {κ} :
    (P : Transaction → Type κ) (t : Transaction) (rows : List Transaction)
    → P t
    → All P rows
    → All P (insert_by_date t rows)
unfolding insert_by_date
All-insert P t [] p h = (p, tt)
All-insert P t (u ∷ rows) p h = elim (Bool-cases (ltb t.created_at u.created_at)) [
  | inl older ↦ rw older (h.0, All-insert P t rows p h.1)
  | inr newer ↦ rw newer (p, h)
]

insert-IsNewestFirst :
    (t : Transaction) (rows : List Transaction)
    → IsNewestFirst rows
    → IsNewestFirst (insert_by_date t rows)
unfolding insert_by_date
insert-IsNewestFirst t [] h = (tt, tt)
insert-IsNewestFirst t (u ∷ rows) h = elim (Bool-cases (ltb t.created_at u.created_at)) [
  | inl older ↦ rw older (All-insert _ t rows (ground arith) h.0, insert-IsNewestFirst t rows h.1)
  | inr newer ↦ rw newer ((ground arith, All-map _ _ rows (λ v le. ground arith) h.0), h)
]

All-newest_first {κ} :
    (P : Transaction → Type κ) (rows : List Transaction) → All P rows → All P (newest_first rows)
unfolding newest_first
All-newest_first P [] h = tt
All-newest_first P (t ∷ rows) h =
    All-insert P t (newest_first rows) h.0 (All-newest_first P rows h.1)

newest_first-IsNewestFirst : (rows : List Transaction) → IsNewestFirst (newest_first rows)
unfolding newest_first
newest_first-IsNewestFirst [] = tt
newest_first-IsNewestFirst (t ∷ rows) =
    insert-IsNewestFirst t (newest_first rows) (newest_first-IsNewestFirst rows)

take-IsNewestFirst :
    (n : ℕ) (rows : List Transaction) → IsNewestFirst rows → IsNewestFirst (take n rows)
take-IsNewestFirst zero rows h = tt
take-IsNewestFirst (suc n) [] h = tt
take-IsNewestFirst (suc n) (t ∷ rows) h = (All-take _ n rows h.0, take-IsNewestFirst n rows h.1)

drop-IsNewestFirst :
    (n : ℕ) (rows : List Transaction) → IsNewestFirst rows → IsNewestFirst (drop n rows)
drop-IsNewestFirst zero rows h = h
drop-IsNewestFirst (suc n) [] h = tt
drop-IsNewestFirst (suc n) (t ∷ rows) h = drop-IsNewestFirst n rows h.1

-- At most `limit` rows, all of them with `p`, the newest first.
pub record IsPage (p : Transaction → Bool) (limit : ℕ) (rows : List Transaction) : Type 0 where
  pub all : All (λ t. p t ≡ true) rows
  pub ordered : IsNewestFirst rows
  pub short : length rows ≤ limit

page-IsPage :
    (p : Transaction → Bool) (limit offset : ℕ) (rows : List Transaction)
    → IsPage p limit (page limit offset (newest_first (select p rows)))
page-IsPage p limit offset rows = record {
  all =
      All-take _ limit _
        (All-drop _ offset _ (All-newest_first _ (select p rows) (All-select p rows)));
  ordered =
      take-IsNewestFirst limit _
        (drop-IsNewestFirst offset _ (newest_first-IsNewestFirst (select p rows)));
  short = length-take limit (drop offset (newest_first (select p rows)));
}

module _ ⦃orm : Orm⦄ (s : Session) where
  -- An admin's list is answered with at most `limit` rows, all of which pass the filters, the
  -- newest first, and nothing is written.
  pub list_transactions_admin-IsPage :
      (f : TransactionListFilters)
      → (rows : List Transaction) × (list_transactions_admin f s ≡ (ok rows, begun s))
        × IsPage (matches s.db f) f.limit rows
  unfolding list_transactions_admin Rows.list_filtered
  list_transactions_admin-IsPage f = (
    _,
    select_all_lem (λ d. page f.limit f.offset (newest_first (select (matches d f) d.transactions)))
        s,
    page-IsPage (matches s.db f) f.limit f.offset s.db.transactions,
  )

  module _ (user : User) (i : ℕ) (account : Account)
      (found : select (Accounts.has_id i) s.db.accounts ≡ account ∷ []) where
    -- The owner of an account, alone with its identifier, is given at most `limit` of its
    -- transactions, and no other's, the newest first; nothing is written.
    pub list_account_transactions-IsPage :
        (limit offset : ℕ)
        → (account.user_id == user.id) ≡ true
        → (rows : List Transaction) × (list_account_transactions_for_customer i user limit offset s
            ≡ (ok rows, begun s))
          × IsPage (λ t. t.origin_account == i) limit rows
    unfolding list_account_transactions_for_customer Rows.list_by_account
    list_account_transactions-IsPage limit offset own = (
      _,
      simp (Accounts.get_lem, found, own, select_all_lem),
      page-IsPage (λ t. t.origin_account == i) limit offset s.db.transactions,
    )

    -- A customer who is not the owner of an account, alone with its identifier, is answered 403,
    -- and nothing is written.
    pub list_account_transactions_denied :
        (limit offset : ℕ)
        → (account.user_id == user.id) ≡ false
        → list_account_transactions_for_customer i user limit offset s
          ≡ (err access_denied, begun s)
    unfolding list_account_transactions_for_customer
    list_account_transactions_denied limit offset other = simp (Accounts.get_lem, found, other)
