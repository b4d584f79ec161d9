-- ===== src/Services/Archive/Copies.antt =====
-- What the archive has after a run (backend/app/services/archive_service.py).
use bank_transaction_system.Base.{
  ℕ, ◌≡◌, refl, Bool, true, false, Option, none, some, List, [], ◌∷◌, ◌++◌, ◌||◌, arith, ==_refl,
  Bool-cases, inl, inr, if◌then◌else◌,
}
use mathlib.Core.List.{append-nil}
use bank_transaction_system.Base.Distinct.{exists_row-++}
use bank_transaction_system.Base.Rows.{exists_row, find, length}
use bank_transaction_system.Models.{Account, Transaction, TransactionHistory, Db}
use bank_transaction_system.Orm.{ok, Session, Orm}
use bank_transaction_system.Crud.Statements.{begun}
use bank_transaction_system.Crud.Accounts
use bank_transaction_system.Services.Archive.{
  Server, copies_of, is_eligible, joined_copy, select_copies, keys_are_new, archive,
  copy_transactions_to_history,
}

-- `later` has all that `history` has.
abbrev Includes : List TransactionHistory → List TransactionHistory → Type 0
Includes later history =
    (i : ℕ) → exists_row (copies_of i) history ≡ true → exists_row (copies_of i) later ≡ true

or_right : (a b : Bool) → b ≡ true → (a || b) ≡ true
or_right a b h = ground arith

or_left : (a b : Bool) → a ≡ true → (a || b) ≡ true
or_left a b h = ground arith

Includes-right :
    (later xs ys : List TransactionHistory) → Includes later (xs ++ ys) → Includes later ys
Includes-right later xs ys h i e = h i (rw (exists_row-++ (copies_of i) xs ys) (or_right _ _ e))

Includes-left :
    (later xs ys : List TransactionHistory) → Includes later (xs ++ ys) → Includes later xs
Includes-left later xs ys h i e = h i (rw (exists_row-++ (copies_of i) xs ys) (or_left _ _ e))

still_ineligible :
    (later history : List TransactionHistory) (t : Transaction)
    → (exists_row (copies_of t.id) history ≡ true → exists_row (copies_of t.id) later ≡ true)
    → is_eligible history t ≡ false
    → is_eligible later t ≡ false
still_ineligible later history t h e = elim (Bool-cases (exists_row (copies_of t.id) history)) [
  | inl there ↦ rw (h there) (ground arith)
  | inr absent ↦ ground arith
]

copied_ineligible :
    (later : List TransactionHistory) (t : Transaction)
    → exists_row (copies_of t.id) later ≡ true
    → is_eligible later t ≡ false
copied_ineligible later t h = rw h (ground arith)

if_same : {A : Type 0} (b : Bool) (x : A) → (if b then x else x) ≡ x
if_same true x = refl
if_same false x = refl

module _ (server server' : Server) (accounts : List Account) where
  -- The account of a transaction, as the join finds it.
  abbrev account_of : Transaction → Option Account
  account_of t = find (Accounts.has_id t.origin_account) accounts

  -- One transaction of the list, once the history has its copy.
  none_of :
      (later : List TransactionHistory) (t : Transaction) (o : Option Account)
      → Includes later (joined_copy server t o)
      → (if is_eligible later t then joined_copy server' t o ++ [] else []) ≡ []
  unfolding exists_row
  none_of later t none h = if_same (is_eligible later t) []
  none_of later t (some a) h = rw (copied_ineligible later t (h t.id (rw (==_refl t.id))))

  none_left :
      (history later : List TransactionHistory) (rows : List Transaction)
      → Includes later history
      → Includes later (select_copies server accounts history rows)
      → select_copies server' accounts later rows ≡ []
  unfolding select_copies
  none_left history later [] old new = refl
  none_left history later (t ∷ rows) old new = elim (Bool-cases (is_eligible history t)) [
    | inl eligible ↦
        let both : Includes later
            (joined_copy server t (account_of t) ++ select_copies server accounts history rows) =
          rw eligible at new in
        rw
          (none_left history later rows old (
            Includes-right later (joined_copy server t (account_of t))
              (select_copies server accounts history rows) both))
          (none_of later t (account_of t) (
            Includes-left later (joined_copy server t (account_of t))
              (select_copies server accounts history rows) both))
    | inr not_eligible ↦
        rw (still_ineligible later history t (old t.id) not_eligible)
          (none_left history later rows old (rw not_eligible at new))
  ]

module _ ⦃orm : Orm⦄ (server : Server) (s : Session) (idle : s.in_transaction ≡ false) where
  -- The copies that a run adds, and the database after it.
  abbrev pub copies : List TransactionHistory
  copies = select_copies server s.db.accounts s.db.transaction_history s.db.transactions

  abbrev pub archived : Db
  archived = record s.db { transaction_history = s.db.transaction_history ++ copies }

  -- On a session without a transaction, a run whose new keys are new adds the copies behind the
  -- history, in one transaction, and returns their number; no transaction is changed.
  pub copy_adds :
      keys_are_new s.db.transaction_history copies ≡ true
      → copy_transactions_to_history server s
        ≡ (ok (length copies), record s { db = archived; in_transaction = false })
  unfolding copy_transactions_to_history archive
  copy_adds fresh =
      rw (orm.begin_idle ℕ (orm.execute ℕ (archive server)) s idle)
        (rw (orm.execute_lem ℕ (archive server) (begun s)) (rw fresh))

  nothing_new :
      (server' : Server)
      → select_copies server' s.db.accounts archived.transaction_history s.db.transactions ≡ []
  nothing_new server' =
      none_left server server' s.db.accounts s.db.transaction_history
        (s.db.transaction_history ++ copies) s.db.transactions
        (Includes-left _ s.db.transaction_history copies (λ i e. e))
        (Includes-right _ s.db.transaction_history copies (λ i e. e))

  -- After a run of the archive whose new keys are new, on a session without a transaction, another
  -- one adds nothing: it returns zero and leaves the session as it is.
  pub copy_is_idempotent :
      (server' : Server)
      → keys_are_new s.db.transaction_history copies ≡ true
      → copy_transactions_to_history server' (copy_transactions_to_history server s).1
        ≡ (ok 0, (copy_transactions_to_history server s).1)
  unfolding copy_transactions_to_history archive
  copy_is_idempotent server' fresh = rw (copy_adds fresh) (
      rw
        (orm.begin_idle ℕ (orm.execute ℕ (archive server'))
          (record s { db = archived; in_transaction = false }) refl)
        (rw (orm.execute_lem ℕ (archive server') (begun (record s { db = archived })))
          (rw (nothing_new server') (rw (append-nil archived.transaction_history)))))
