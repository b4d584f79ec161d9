-- ===== src/Services/Transactions/Ledger/Sums.antt =====
-- What the statements of a payment do to the sums of the ledger.
use bank_transaction_system.Base.{
  ℕ, ◌≡◌, refl, sym, ◌∙◌, ◌==◌, ==_iff, ==_refl, Bool, true, false, List, [], ◌∷◌, ◌++◌, arith,
  if◌then◌else◌, Bool-cases, inl, inr,
}
use bank_transaction_system.Base.Rows.{select, update_rows, select-update_rows, select-append}
use bank_transaction_system.Base.Int.{ℤ, pos, ◌+ℤ◌, ◌-ℤ◌, ◌≤ℤ◌, leb_ℤ, int_laws}
use bank_transaction_system.Models.{Account, Card, Transaction, Db}
use bank_transaction_system.Orm.{ok}
use bank_transaction_system.Crud.Accounts.{has_id, with_balance, store_balance, insert_account}
use bank_transaction_system.Crud.Cards.{insert_card}
use bank_transaction_system.Crud.Transactions.{insert_transaction}
use bank_transaction_system.Crud.Written.{
  insert_account_written, store_balance_written, insert_card_written, insert_transaction_written,
}
use bank_transaction_system.Services.Transactions.Ledger.{
  total, is_paid, balance_of, paid_by, ledger, owed,
}

pub plus_zero : (x : ℤ) → x +ℤ pos 0 ≡ x
plus_zero x = grind int_laws

zero_plus : (x : ℤ) → pos 0 +ℤ x ≡ x
zero_plus x = grind int_laws

plus_assoc : (x y z : ℤ) → x +ℤ y +ℤ z ≡ x +ℤ (y +ℤ z)
plus_assoc x y z = grind int_laws

total-append :
    {A : Type 0} (f : A → ℤ) (xs ys : List A) → total f (xs ++ ys) ≡ total f xs +ℤ total f ys
unfolding total
total-append f [] ys = sym (zero_plus (total f ys))
total-append f (x ∷ xs) ys =
    rw (total-append f xs ys) (sym (plus_assoc (f x) (total f xs) (total f ys)))

-- An update of rows that are not asked for, before and after, is not seen.
pub select-unseen :
    {A : Type 0} (p q : A → Bool) (f : A → A) (xs : List A)
    → ((x : A) → q x ≡ true → p x ≡ false)
    → ((x : A) → q x ≡ true → p (f x) ≡ false)
    → select p (update_rows q f xs) ≡ select p xs
unfolding select update_rows
select-unseen p q f [] h k = refl
select-unseen p q f (x ∷ xs) h k = ground (arith, h x, k x, select-unseen p q f xs h k)

other_id : (i j : ℕ) (x : Account) → (j == i) ≡ false → has_id j x ≡ true → has_id i x ≡ false
other_id i j x h e = grind arith

spent : (b x p : ℤ) → b -ℤ x +ℤ p +ℤ x ≡ b +ℤ p
spent b x p = grind int_laws

module _ (a : Account) (v : ℤ) (u : Unit {0}) (d d' : Db)
    (one : select (has_id a.id) d.accounts ≡ a ∷ []) (e : store_balance a.id v d ≡ ok (u, d')) where
  balance_before : balance_of a.id d ≡ a.balance
  unfolding balance_of total
  balance_before = rw one (plus_zero a.balance)

  balance_after : balance_of a.id d' ≡ v
  unfolding balance_of total update_rows
  balance_after = rw ((store_balance_written a.id v u d d' e).1) (
      rw (select-update_rows (has_id a.id) (has_id a.id) (with_balance v) d.accounts (λ y. refl))
        (rw one (rw (==_refl a.id) (plus_zero v))))

  balance_other : (i : ℕ) → (a.id == i) ≡ false → balance_of i d' ≡ balance_of i d
  unfolding balance_of
  balance_other i other = rw ((store_balance_written a.id v u d d' e).1) (
      rw (
        select-unseen (has_id i) (has_id a.id) (with_balance v) d.accounts
          (λ y. other_id i a.id y other) (λ y. other_id i a.id y other)))

  paid_same : (i : ℕ) → paid_by i d' ≡ paid_by i d
  unfolding paid_by
  paid_same i = rw ((store_balance_written a.id v u d d' e).1)

  -- The account's own ledger is written, from its old balance to the new one.
  ledger-own :
      (i : ℕ)
      → (a.id == i) ≡ true
      → (ledger i d' ≡ v +ℤ paid_by i d) × (ledger i d ≡ a.balance +ℤ paid_by i d)
  ledger-own i same =
      let key : a.id ≡ i = (==_iff a.id i).0 same in
      let after : balance_of i d' ≡ v = (λ k. balance_of (sym key k) d') ∙ balance_after in
      let before : balance_of i d ≡ a.balance = (λ k. balance_of (sym key k) d) ∙ balance_before in
      (rw (paid_same i) (rw after), rw before)

  ledger-other : (i : ℕ) → (a.id == i) ≡ false → ledger i d' ≡ ledger i d
  ledger-other i other = rw (paid_same i) (rw (balance_other i other))

-- The balance of the account falls by what is written, and no other's.
pub store_balance-ledger :
    (a : Account) (x : ℤ) (u : Unit {0}) (d d' : Db)
    → select (has_id a.id) d.accounts ≡ a ∷ []
    → store_balance a.id (a.balance -ℤ x) d ≡ ok (u, d')
    → (i : ℕ) → ledger i d' +ℤ (if a.id == i then x else pos 0) ≡ ledger i d
store_balance-ledger a x u d d' one e i = elim (Bool-cases (a.id == i)) [
  | inl same ↦
      let (after, before) = ledger-own a (a.balance -ℤ x) u d d' one e i same in
      rw same (rw after (rw before (spent a.balance x (paid_by i d))))
  | inr other ↦
      rw other (rw (ledger-other a (a.balance -ℤ x) u d d' one e i other) (plus_zero (ledger i d)))
]

raised : (b x p : ℤ) → leb_ℤ x (pos 0) ≡ false → b +ℤ p ≤ℤ b +ℤ x +ℤ p
raised b x p h = grind int_laws

pub ≤ℤ-refl : (x : ℤ) → x ≤ℤ x
≤ℤ-refl x = omega arith

-- A credit lowers no ledger.
pub credit-ledger :
    (a : Account) (x : ℤ)
    → leb_ℤ x (pos 0) ≡ false
    → (u : Unit {0}) (d d' : Db) → select (has_id a.id) d.accounts ≡ a ∷ []
    → store_balance a.id (a.balance +ℤ x) d ≡ ok (u, d')
    → (i : ℕ) → ledger i d ≤ℤ ledger i d'
credit-ledger a x positive u d d' one e i = elim (Bool-cases (a.id == i)) [
  | inl same ↦
      let (after, before) = ledger-own a (a.balance +ℤ x) u d d' one e i same in
      rw after (rw before (raised a.balance x (paid_by i d) positive))
  | inr other ↦ rw (ledger-other a (a.balance +ℤ x) u d d' one e i other) (≤ℤ-refl (ledger i d))
]

opened-one :
    (i : ℕ) (a : Account)
    → a.balance ≡ pos 0
    → total (λ (b : Account). b.balance) (select (has_id i) (a ∷ [])) ≡ pos 0
unfolding total select
opened-one i a nothing = elim (Bool-cases (has_id i a)) [
  | inl own ↦ rw own (rw nothing (plus_zero (pos 0)))
  | inr other ↦ rw other
]

-- A new account has nothing.
pub insert_account-ledger :
    (i : ℕ) (x a : Account) (d d' : Db)
    → x.balance ≡ pos 0
    → insert_account x d ≡ ok (a, d')
    → ledger i d' ≡ ledger i d
unfolding balance_of paid_by
insert_account-ledger i x a d d' nothing e = rw ((insert_account_written x a d d' e).1) (
    rw (select-append (has_id i) d.accounts (x ∷ [])) (
      rw
        (total-append (λ (b : Account). b.balance) (select (has_id i) d.accounts)
          (select (has_id i) (x ∷ [])))
        (rw (opened-one i x nothing) (rw (plus_zero (balance_of i d))))))

paid-one :
    (i : ℕ) (t : Transaction)
    → total (λ (u : Transaction). u.amount) (select (is_paid i) (t ∷ [])) ≡ owed i t
unfolding total select
paid-one i t = elim (Bool-cases (is_paid i t)) [
  | inl paid ↦ rw paid (plus_zero t.amount)
  | inr unpaid ↦ rw unpaid
]

pub insert_transaction-ledger :
    (i : ℕ) (t a : Transaction) (d d' : Db)
    → insert_transaction t d ≡ ok (a, d')
    → ledger i d' ≡ ledger i d +ℤ owed i t
unfolding balance_of paid_by
insert_transaction-ledger i t a d d' e = rw ((insert_transaction_written t a d d' e).1) (
    rw (select-append (is_paid i) d.transactions (t ∷ [])) (
      rw
        (total-append (λ (u : Transaction). u.amount) (select (is_paid i) d.transactions)
          (select (is_paid i) (t ∷ [])))
        (rw (paid-one i t) (sym (plus_assoc (balance_of i d) (paid_by i d) (owed i t))))))

pub insert_card-ledger :
    (i : ℕ) (c a : Card) (d d' : Db) → insert_card c d ≡ ok (a, d') → ledger i d' ≡ ledger i d
unfolding balance_of paid_by
insert_card-ledger i c a d d' e = rw ((insert_card_written c a d d' e).1)
