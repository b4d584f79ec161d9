-- ===== src/Services/Transactions/Lifecycle.antt =====
-- The life of a row of `transactions`: what backend/app/crud/transaction.py calls its immutability
-- contract, and the order of the statuses of backend/app/models/transaction.py.
use bank_transaction_system.Base.{
  ℕ, ◌≡◌, refl, sym, ◌∙◌, Bool, true, false, List, [], ◌∷◌, ◌++◌, arith, if◌then◌else◌,
}
use mathlib.Core.List.{append_assoc, append-nil}
use bank_transaction_system.Base.Rows.{update_rows}
use bank_transaction_system.Models.{User, Transaction, TransactionStatus, status_eq, Db}
use bank_transaction_system.Schemas.{TransactionCreate}
use bank_transaction_system.Platform.{Platform}
use bank_transaction_system.Orm.{Session, Env, Orm}
use bank_transaction_system.Orm.Relates.{IsPreorder}
use bank_transaction_system.Crud.Transactions.{in_status, with_status}
use bank_transaction_system.Crud.Written.{
  store_balance_written, insert_card_written, insert_transaction_written, set_status_written,
}
use bank_transaction_system.Services.Transactions.{
  create_transaction, process_scheduled_transaction,
}
use bank_transaction_system.Services.Transactions.Writes.{Writes, RespectsMoves, may_follow}
use bank_transaction_system.Services.Transactions.Writes.Created.{create_transaction-related}
use bank_transaction_system.Services.Transactions.Writes.Claimed.{process_scheduled-related}

-- The statuses that a row in status `a` may come to have.
pub data Reaches (a : TransactionStatus) : TransactionStatus → Type 0 where
  here : Reaches a a
  next : {b c : TransactionStatus} → Reaches a b → may_follow b c ≡ true → Reaches a c

Reaches-trans : {a b c : TransactionStatus} → Reaches a b → Reaches b c → Reaches a c
Reaches-trans r here = r
Reaches-trans r (next q h) = next (Reaches-trans r q) h

-- A final status stays.
pub Reaches-pending :
    {c : TransactionStatus} → Reaches TransactionStatus.pending c → c ≡ TransactionStatus.pending
Reaches-pending here = refl
Reaches-pending (next {b} {c} q h) = ground (arith, Reaches-pending q)

-- The same row, but for a status that its old status reaches.
pub record Moved (t u : Transaction) : Type 0 where
  pub same : u ≡ with_status u.status t
  pub reached : Reaches t.status u.status

-- Every row is still there, in its place, and rows may have been added.
abbrev pub Evolves : List Transaction → List Transaction → Type 0
Evolves [] rows = Unit
Evolves (t ∷ old) [] = ⊥
Evolves (t ∷ old) (u ∷ rows) = Moved t u × Evolves old rows

Moved-refl : (t : Transaction) → Moved t t
Moved-refl t = record { same = refl; reached = here }

Moved-trans : {t u v : Transaction} → Moved t u → Moved u v → Moved t v
Moved-trans m n = record { same = ground arith; reached = Reaches-trans m.reached n.reached }

pub Evolves-refl : (rows : List Transaction) → Evolves rows rows
Evolves-refl [] = tt
Evolves-refl (t ∷ rows) = (Moved-refl t, Evolves-refl rows)

Evolves-trans : (a b c : List Transaction) → Evolves a b → Evolves b c → Evolves a c
Evolves-trans [] b c h k = tt
Evolves-trans (t ∷ a) [] c h k = elim h [ ]
Evolves-trans (t ∷ a) (u ∷ b) [] h k = elim k [ ]
Evolves-trans (t ∷ a) (u ∷ b) (v ∷ c) h k = (Moved-trans h.0 k.0, Evolves-trans a b c h.1 k.1)

Evolves-append : (rows more : List Transaction) → Evolves rows (rows ++ more)
Evolves-append [] more = tt
Evolves-append (t ∷ rows) more = (Moved-refl t, Evolves-append rows more)

status_eq_sound : (a b : TransactionStatus) → status_eq a b ≡ true → a ≡ b
status_eq_sound a b h = ground arith

in_status_sound :
    (i : ℕ) (st : TransactionStatus) (t : Transaction) → in_status i st t ≡ true → t.status ≡ st
in_status_sound i st t h = status_eq_sound t.status st (ground arith)

Moved-if :
    (b : Bool) (expected new : TransactionStatus) (t : Transaction)
    → (b ≡ true → t.status ≡ expected)
    → may_follow expected new ≡ true
    → Moved t (if b then with_status new t else t)
Moved-if true expected new t sound h = record {
  same = refl;
  reached = next here (rw (sound refl) h);
}
Moved-if false expected new t sound h = Moved-refl t

Evolves-update :
    (i : ℕ) (expected new : TransactionStatus) (rows : List Transaction)
    → may_follow expected new ≡ true
    → Evolves rows (update_rows (in_status i expected) (with_status new) rows)
unfolding update_rows
Evolves-update i expected new [] h = tt
Evolves-update i expected new (t ∷ rows) h = (
  Moved-if (in_status i expected t) expected new t (in_status_sound i expected t) h,
  Evolves-update i expected new rows h,
)

abbrev pub Life : Db → Db → Type 0
Life d d' = Evolves d.transactions d'.transactions

Life-pre : IsPreorder Life
Life-pre = record {
  reflexive = λ d. Evolves-refl d.transactions;
  transitive = λ {c} {d} {e} h k. Evolves-trans c.transactions d.transactions e.transactions h k;
}

pub Life-Writes : Writes Life
Life-Writes = record {
  pre = Life-pre;
  inserted_card =
      λ c a d d' e. rw ((insert_card_written c a d d' e).1) (Evolves-refl d.transactions);
  inserted = λ t a d d' e.
      rw ((insert_transaction_written t a d d' e).1) (Evolves-append d.transactions (t ∷ []));
  deducted = λ a x enough u d d' e.
      rw ((store_balance_written _ _ u d d' e).1) (Evolves-refl d.transactions);
}

pub Life-RespectsMoves : RespectsMoves Life
Life-RespectsMoves i new expected h b d d' e =
    rw ((set_status_written i new expected b d d' e).1)
      (Evolves-update i expected new d.transactions h)

-- The rows that were there are untouched, and rows may have been added behind them.
abbrev pub Extends : Db → Db → Type 0
Extends d d' = (more : List Transaction) × (d'.transactions ≡ d.transactions ++ more)

Extends-trans : (c d e : Db) → Extends c d → Extends d e → Extends c e
Extends-trans c d e (more, h) (rest, k) =
    (more ++ rest, k ∙ (rw h (append_assoc c.transactions more rest)))

Extends-pre : IsPreorder Extends
Extends-pre = record {
  reflexive = λ d. ([], sym (append-nil d.transactions));
  transitive = λ {c} {d} {e}. Extends-trans c d e;
}

Extends-same : (d d' : Db) → d'.transactions ≡ d.transactions → Extends d d'
Extends-same d d' e = ([], e ∙ sym (append-nil d.transactions))

Extends-Writes : Writes Extends
Extends-Writes = record {
  pre = Extends-pre;
  inserted_card = λ c a d d' e. Extends-same d d' (rw ((insert_card_written c a d d' e).1));
  inserted = λ t a d d' e. (t ∷ [], rw ((insert_transaction_written t a d d' e).1));
  deducted = λ a x enough u d d' e. Extends-same d d' (rw ((store_balance_written _ _ u d d' e).1));
}

module _ ⦃orm : Orm⦄ where
  -- A customer's payment changes no row of the transactions table and removes none, whatever its
  -- outcome, if the sessions that commit meanwhile do not either.
  pub create_transaction-Extends :
      ⦃p : Platform⦄ (env : Env) (payload : TransactionCreate) (user : User) (s : Session)
      → ((d : Db) → Extends d (env.commits d))
      → Extends s.db (create_transaction env payload user s).1.db
  create_transaction-Extends env payload user s commits =
      (create_transaction-related Extends-Writes env commits payload user).at s

  -- Processing a scheduled payment keeps every row of the transactions table in its place and
  -- changes no column but the status, along the transitions of `may_follow`, whatever the outcome.
  pub process_scheduled-Evolves :
      (env : Env) (i : ℕ) (s : Session)
      → Evolves s.db.transactions (process_scheduled_transaction env i s).1.db.transactions
  process_scheduled-Evolves env i s =
      (process_scheduled-related Life-Writes Life-RespectsMoves env i).at s
