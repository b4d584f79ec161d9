-- ===== src/Integrity/Archived.antt =====
-- The archive's statement (backend/app/services/archive_service.py) keeps the integrity of the
-- database: where transactions have distinct keys, it copies none twice.
use bank_transaction_system.Base.{
  ℕ, ◌≡◌, refl, true, false, List, [], ◌∷◌, ◌++◌, ◌==◌, arith, Bool, Bool-cases, inl, inr, Option,
  none, some,
}
use bank_transaction_system.Base.Rows.{exists_row, find}
use bank_transaction_system.Base.Distinct.{
  Distinct, Apart, Apart-head, Apart-tail, Distinct-++, IsKey-ℕ,
}
use bank_transaction_system.Models.{Account, Transaction, TransactionHistory, Db}
use bank_transaction_system.Orm.{ok}
use bank_transaction_system.Crud.Accounts
use bank_transaction_system.Services.Archive.{
  Server, copies_of, is_eligible, joined_copy, select_copies, keys_are_new, archive,
}
use bank_transaction_system.Integrity.{WellFormed}

abbrev same_key : TransactionHistory → TransactionHistory → Bool
same_key h g = g.id == h.id

abbrev same_transaction : TransactionHistory → TransactionHistory → Bool
same_transaction h g = g.transaction_id == h.transaction_id

keys_are_new-Distinct :
    (history rows : List TransactionHistory)
    → keys_are_new history rows ≡ true
    → Distinct same_key rows × Apart same_key history rows
keys_are_new-Distinct history [] e = (tt, tt)
keys_are_new-Distinct history (h ∷ rows) e =
    let rest = keys_are_new-Distinct (h ∷ history) rows (ground arith) in
    (
      (
        Apart-head same_key (IsKey-ℕ (λ (x : TransactionHistory). x.id)) h history rows rest.1,
        rest.0,
      ),
      (ground arith, Apart-tail same_key h history rows rest.1),
    )

module _ (server : Server) (accounts : List Account) (history : List TransactionHistory) where
  joined_absent :
      (t : Transaction) (o : Option Account) (i : ℕ) (rest : List TransactionHistory)
      → (t.id == i) ≡ false
      → exists_row (copies_of i) rest ≡ false
      → exists_row (copies_of i) (joined_copy server t o ++ rest) ≡ false
  unfolding exists_row
  joined_absent t none i rest other h = h
  joined_absent t (some a) i rest other h = rw (other, h)

  -- The transactions that are copied are among those that are read.
  exists-select_copies :
      (rows : List Transaction) (i : ℕ)
      → exists_row (λ (t : Transaction). t.id == i) rows ≡ false
      → exists_row (copies_of i) (select_copies server accounts history rows) ≡ false
  unfolding exists_row select_copies
  exists-select_copies [] i h = refl
  exists-select_copies (t ∷ rows) i h =
      let rest = exists-select_copies rows i (ground arith) in
      elim (Bool-cases (is_eligible history t)) [
        | inl eligible ↦ rw eligible (
            joined_absent t (find (Accounts.has_id t.origin_account) accounts) i _ (ground arith)
              rest)
        | inr not_eligible ↦ rw not_eligible rest
      ]

  joined-Distinct :
      (t : Transaction) (o : Option Account) (rest : List TransactionHistory)
      → exists_row (copies_of t.id) rest ≡ false
      → Distinct same_transaction rest
      → Distinct same_transaction (joined_copy server t o ++ rest)
  joined-Distinct t none rest h g = g
  joined-Distinct t (some a) rest h g = (h, g)

  copies-Distinct :
      (rows : List Transaction)
      → Distinct (λ (t u : Transaction). u.id == t.id) rows
      → Distinct same_transaction (select_copies server accounts history rows)
  unfolding select_copies
  copies-Distinct [] h = tt
  copies-Distinct (t ∷ rows) h = elim (Bool-cases (is_eligible history t)) [
    | inl eligible ↦ rw eligible (
        joined-Distinct t (find (Accounts.has_id t.origin_account) accounts) _
          (exists-select_copies rows t.id h.0) (copies-Distinct rows h.1))
    | inr not_eligible ↦ rw not_eligible (copies-Distinct rows h.1)
  ]

  joined-Apart :
      (t : Transaction) (o : Option Account) (rest : List TransactionHistory)
      → exists_row (copies_of t.id) history ≡ false
      → Apart same_transaction history rest
      → Apart same_transaction history (joined_copy server t o ++ rest)
  joined-Apart t none rest h g = g
  joined-Apart t (some a) rest h g = (h, g)

  copies-Apart :
      (rows : List Transaction)
      → Apart same_transaction history (select_copies server accounts history rows)
  unfolding select_copies
  copies-Apart [] = tt
  copies-Apart (t ∷ rows) = elim (Bool-cases (is_eligible history t)) [
    | inl eligible ↦
        let absent : exists_row (copies_of t.id) history ≡ false = ground arith in
        rw eligible (
          joined-Apart t (find (Accounts.has_id t.origin_account) accounts) _ absent
            (copies-Apart rows))
    | inr not_eligible ↦ rw not_eligible (copies-Apart rows)
  ]

pub archive_written :
    (server : Server) (n : ℕ) (d d' : Db)
    → archive server d ≡ ok (n, d')
    → let rows = select_copies server d.accounts d.transaction_history d.transactions in
      (keys_are_new d.transaction_history rows ≡ true)
      × (d' ≡ record d { transaction_history = d.transaction_history ++ rows })
unfolding archive
archive_written server n d d' e = (ground arith, ground arith)

pub archive-WellFormed :
    (server : Server) (n : ℕ) (d d' : Db)
    → archive server d ≡ ok (n, d')
    → WellFormed d
    → WellFormed d'
archive-WellFormed server n d d' e w =
    let (new, written) = archive_written server n d d' e in
    let history = d.transaction_history in
    let rows = select_copies server d.accounts history d.transactions in
    let keys = keys_are_new-Distinct history rows new in
    rw written (record {
      users = w.users;
      accounts = w.accounts;
      cards = w.cards;
      transactions = w.transactions;
      sessions = w.sessions;
      logs = w.logs;
      archive = record {
        ids =
            Distinct-++ same_key (IsKey-ℕ (λ (x : TransactionHistory). x.id)) history rows
              w.archive.ids keys.0 keys.1;
        copies =
            Distinct-++ same_transaction (IsKey-ℕ (λ (x : TransactionHistory). x.transaction_id))
              history rows w.archive.copies
              (copies-Distinct server d.accounts history d.transactions w.transactions.ids)
              (copies-Apart server d.accounts history d.transactions);
      };
    })
