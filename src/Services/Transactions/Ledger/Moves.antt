-- ===== src/Services/Transactions/Ledger/Moves.antt =====
-- What the UPDATE of a transaction's status (backend/app/crud/transaction.py) does to the ledger.
use bank_transaction_system.Base.{
  ℕ, ◌≡◌, refl, ◌∙◌, sym, Bool, true, false, List, [], ◌∷◌, arith, Bool-cases, inl, inr,
}
use bank_transaction_system.Base.Rows.{select, update_rows}
use bank_transaction_system.Base.Int.{ℤ, pos, ◌+ℤ◌, int_laws}
use bank_transaction_system.Models.{Transaction, TransactionStatus, status_eq, Db}
use bank_transaction_system.Crud.Transactions.{has_id, in_status, with_status}
use bank_transaction_system.Services.Transactions.Ledger.{
  total, is_paid, paid_by, balance_of, ledger, due, owed,
}
use bank_transaction_system.Services.Transactions.Ledger.Sums.{select-unseen}

unpaid_old :
    (i k : ℕ) (expected : TransactionStatus) (t : Transaction)
    → status_eq expected TransactionStatus.completed ≡ false
    → in_status k expected t ≡ true
    → is_paid i t ≡ false
unpaid_old i k expected t h e = ground (arith, h, e)

unpaid_new :
    (i : ℕ) (new : TransactionStatus) (t : Transaction)
    → status_eq new TransactionStatus.completed ≡ false
    → is_paid i (with_status new t) ≡ false
unpaid_new i new t h = ground (arith, h)

-- A move between statuses that are not COMPLETED pays nothing.
pub set_status-unpaid :
    (i k : ℕ) (new expected : TransactionStatus) (d : Db)
    → status_eq new TransactionStatus.completed ≡ false
    → status_eq expected TransactionStatus.completed ≡ false
    → ledger i (record d {
      transactions = update_rows (in_status k expected) (with_status new) d.transactions;
    })
      ≡ ledger i d
unfolding balance_of paid_by
set_status-unpaid i k new expected d new_not old_not = rw (
    select-unseen (is_paid i) (in_status k expected) (with_status new) d.transactions
      (λ t. unpaid_old i k expected t old_not) (λ t e. unpaid_new i new t new_not))

update_rows-none :
    (k : ℕ) (expected new : TransactionStatus) (rows : List Transaction)
    → select (has_id k) rows ≡ []
    → update_rows (in_status k expected) (with_status new) rows ≡ rows
unfolding select update_rows
update_rows-none k expected new [] e = refl
update_rows-none k expected new (x ∷ rows) e = elim (Bool-cases (has_id k x)) [
  | inl hit ↦ ground (arith, hit, e)
  | inr miss ↦ ground (arith, miss, e, update_rows-none k expected new rows)
]

paid_total : ℕ → List Transaction → ℤ
paid_total i rows = total (λ (t : Transaction). t.amount) (select (is_paid i) rows)

zero_plus : (x : ℤ) → pos 0 +ℤ x ≡ x
zero_plus x = grind int_laws

paid-cons :
    (i : ℕ) (t : Transaction) (rows : List Transaction)
    → paid_total i (t ∷ rows) ≡ owed i t +ℤ paid_total i rows
unfolding total select paid_total
paid-cons i t rows = elim (Bool-cases (is_paid i t)) [
  | inl paid ↦ rw paid
  | inr unpaid ↦ rw unpaid (sym (zero_plus (paid_total i rows)))
]

owed-unpaid : (i : ℕ) (t : Transaction) → is_paid i t ≡ false → owed i t ≡ pos 0
owed-unpaid i t h = rw h

paid_here : (a p : ℤ) → a +ℤ p ≡ pos 0 +ℤ p +ℤ a
paid_here a p = grind int_laws

paid_there : (a p b : ℤ) → a +ℤ (p +ℤ b) ≡ a +ℤ p +ℤ b
paid_there a p b = grind int_laws

update-hit :
    {A : Type 0} (p : A → Bool) (f : A → A) (x : A) (rows : List A)
    → p x ≡ true
    → update_rows p f (x ∷ rows) ≡ f x ∷ update_rows p f rows
unfolding update_rows
update-hit p f x rows h = rw h

update-miss :
    {A : Type 0} (p : A → Bool) (f : A → A) (x : A) (rows : List A)
    → p x ≡ false
    → update_rows p f (x ∷ rows) ≡ x ∷ update_rows p f rows
unfolding update_rows
update-miss p f x rows h = rw h

-- The one row that has the key leaves PROCESSING: what it owes is paid.
settled-rows :
    (i k : ℕ) (new : TransactionStatus) (t : Transaction) (rows : List Transaction)
    → status_eq t.status TransactionStatus.processing ≡ true
    → select (has_id k) rows ≡ t ∷ []
    → paid_total i (update_rows (in_status k TransactionStatus.processing) (with_status new) rows)
      ≡ paid_total i rows +ℤ due i t.method t.origin_account t.amount new
unfolding select
settled-rows i k new t [] held e = cc
settled-rows i k new t (x ∷ rows) held e = elim (Bool-cases (has_id k x)) [
  | inl hit ↦
      let same : x ≡ t = ground (arith, e, hit) in
      let nothing : select (has_id k) rows ≡ [] = ground (arith, e, hit) in
      let held_x : status_eq x.status TransactionStatus.processing ≡ true =
        (λ j. status_eq (same j).status TransactionStatus.processing) ∙ held in
      let claimed : in_status k TransactionStatus.processing x ≡ true =
        ground (arith, hit, held_x) in
      rw (update-hit (in_status k TransactionStatus.processing) (with_status new) x rows claimed) (
        rw (update_rows-none k TransactionStatus.processing new rows nothing) (
          rw (paid-cons i (with_status new x) rows) (
            rw (paid-cons i x rows) (
              rw (owed-unpaid i x (unpaid_old i k TransactionStatus.processing x refl claimed)) (
                paid_here (owed i (with_status new x)) (paid_total i rows)
                ∙ (λ j. pos 0 +ℤ paid_total i rows +ℤ owed i (with_status new (same j))))))))
  | inr miss ↦
      let other : in_status k TransactionStatus.processing x ≡ false = ground (arith, miss) in
      let only : select (has_id k) rows ≡ t ∷ [] = rw miss at e in
      let rest = update_rows (in_status k TransactionStatus.processing) (with_status new) rows in
      rw (update-miss (in_status k TransactionStatus.processing) (with_status new) x rows other) (
        rw (paid-cons i x rest) (
          rw (paid-cons i x rows) (
            rw (settled-rows i k new t rows held only) (
              paid_there (owed i x) (paid_total i rows)
                (due i t.method t.origin_account t.amount new)))))
]

-- The one row that has the key leaves PROCESSING: the ledger counts what it owes.
pub set_status-settled :
    (i k : ℕ) (new : TransactionStatus) (t : Transaction) (d : Db)
    → status_eq t.status TransactionStatus.processing ≡ true
    → select (has_id k) d.transactions ≡ t ∷ []
    → ledger i (record d {
      transactions =
          update_rows (in_status k TransactionStatus.processing) (with_status new) d.transactions;
    })
      ≡ ledger i d +ℤ due i t.method t.origin_account t.amount new
unfolding balance_of paid_by paid_total
set_status-settled i k new t d held only =
    rw (settled-rows i k new t d.transactions held only)
      (paid_there (balance_of i d) (paid_by i d) (due i t.method t.origin_account t.amount new))
