-- ===== src/Integrity/Paid.antt =====
-- The insertions of cards and transactions (backend/app/crud/card.py, transaction.py) and the update
-- of a status keep the integrity of the database.
use bank_transaction_system.Base.{
  ℕ, ◌≡◌, refl, ◌∙◌, true, false, List, [], ◌∷◌, ◌++◌, arith, ◌&&◌, Bool, Option, none, some, leb,
}
use bank_transaction_system.Base.Rows.{
  exists_row, update_rows, All, All-append, All-update_rows, exists_row-update_rows,
}
use bank_transaction_system.Base.Int.{pos, leb_ℤ}
use bank_transaction_system.Base.Distinct.{
  IsKey-ℕ, IsKey-String, exists-left, Distinct-append, Distinct-update_rows,
}
use bank_transaction_system.Models.{Card, Transaction, TransactionStatus, Db}
use bank_transaction_system.Orm.{ok}
use bank_transaction_system.Crud.Statements.{numeric_fits}
use bank_transaction_system.Crud.Accounts
use bank_transaction_system.Crud.Cards
use bank_transaction_system.Crud.Cards.{insert_card}
use bank_transaction_system.Crud.Transactions as Rows
use bank_transaction_system.Crud.Transactions.{
  insert_transaction, set_status, in_status, with_status, refers,
}
use bank_transaction_system.Crud.Written.{
  insert_card_written, insert_transaction_written, set_status_written,
}
use bank_transaction_system.Integrity.{WellFormed}
use bank_transaction_system.Integrity.Registered.{All-known}

record IsNewCard (c : Card) (d : Db) : Type 0 where
  id : exists_row (Cards.has_id c.id) d.cards ≡ false
  number : exists_row (Cards.has_hmac c.number_hmac) d.cards ≡ false
  account_known : exists_row (Accounts.has_id c.account_id) d.accounts ≡ true
  month : (leb 1 c.expiration_month && leb c.expiration_month 12) ≡ true
  year : leb 26 c.expiration_year ≡ true

insert_card_checked : (c a : Card) (d d' : Db) → insert_card c d ≡ ok (a, d') → IsNewCard c d
unfolding insert_card
insert_card_checked c a d d' e = record {
  id = ground arith;
  number = ground arith;
  account_known = ground arith;
  month = ground arith;
  year = ground arith;
}

pub insert_card-WellFormed :
    (c a : Card) (d d' : Db) → insert_card c d ≡ ok (a, d') → WellFormed d → WellFormed d'
insert_card-WellFormed c a d d' e w =
    let new = insert_card_checked c a d d' e in
    rw ((insert_card_written c a d d' e).1) (record {
      users = w.users;
      accounts = w.accounts;
      cards = record {
        ids = Distinct-append _ (IsKey-ℕ (λ (v : Card). v.id)) d.cards c new.id w.cards.ids;
        numbers =
            Distinct-append _ (IsKey-String (λ (v : Card). v.number_hmac)) d.cards c new.number
              w.cards.numbers;
        accounts_known =
            All-append _ d.cards (c ∷ []) w.cards.accounts_known (new.account_known, tt);
        months = All-append _ d.cards (c ∷ []) w.cards.months (new.month, tt);
        years = All-append _ d.cards (c ∷ []) w.cards.years (new.year, tt);
      };
      transactions = record {
        ids = w.transactions.ids;
        cards_known = All-known _ d.transactions d.cards (c ∷ []) w.transactions.cards_known;
        accounts_known = w.transactions.accounts_known;
        originals_known = w.transactions.originals_known;
        positive = w.transactions.positive;
        fits = w.transactions.fits;
      };
      sessions = w.sessions;
      logs = w.logs;
      archive = w.archive;
    })

record IsNewTransaction (t : Transaction) (d : Db) : Type 0 where
  id : exists_row (Rows.has_id t.id) d.transactions ≡ false
  card_known : exists_row (Cards.has_id t.source_card) d.cards ≡ true
  account_known : exists_row (Accounts.has_id t.origin_account) d.accounts ≡ true
  original_known : refers d.transactions t.reversal_of ≡ true
  positive : leb_ℤ t.amount (pos 0) ≡ false
  fits : numeric_fits t.amount ≡ true

insert_transaction_checked :
    (t a : Transaction) (d d' : Db) → insert_transaction t d ≡ ok (a, d') → IsNewTransaction t d
unfolding insert_transaction
insert_transaction_checked t a d d' e = record {
  id = ground arith;
  card_known = ground arith;
  account_known = ground arith;
  original_known = ground arith;
  positive = ground arith;
  fits = ground arith;
}

refers-left :
    (o : Option ℕ) (old more : List Transaction)
    → refers old o ≡ true
    → refers (old ++ more) o ≡ true
refers-left none old more h = refl
refers-left (some i) old more h = exists-left (Rows.has_id i) old more h

All-refers :
    (rows old more : List Transaction)
    → All (λ t. refers old t.reversal_of ≡ true) rows
    → All (λ t. refers (old ++ more) t.reversal_of ≡ true) rows
All-refers [] old more h = tt
All-refers (t ∷ rows) old more h =
    (refers-left t.reversal_of old more h.0, All-refers rows old more h.1)

pub insert_transaction-WellFormed :
    (t a : Transaction) (d d' : Db)
    → insert_transaction t d ≡ ok (a, d')
    → WellFormed d
    → WellFormed d'
insert_transaction-WellFormed t a d d' e w =
    let new = insert_transaction_checked t a d d' e in
    let rows = d.transactions in
    let old = w.transactions in
    rw ((insert_transaction_written t a d d' e).1) (record {
      users = w.users;
      accounts = w.accounts;
      cards = w.cards;
      transactions = record {
        ids = Distinct-append _ (IsKey-ℕ (λ (v : Transaction). v.id)) rows t new.id old.ids;
        cards_known = All-append _ rows (t ∷ []) old.cards_known (new.card_known, tt);
        accounts_known = All-append _ rows (t ∷ []) old.accounts_known (new.account_known, tt);
        originals_known =
            All-append _ rows (t ∷ []) (All-refers rows rows (t ∷ []) old.originals_known)
              (refers-left t.reversal_of rows (t ∷ []) new.original_known, tt);
        positive = All-append _ rows (t ∷ []) old.positive (new.positive, tt);
        fits = All-append _ rows (t ∷ []) old.fits (new.fits, tt);
      };
      sessions = w.sessions;
      logs = w.logs;
      archive = w.archive;
    })

refers-updated :
    (o : Option ℕ) (q : Transaction → Bool) (st : TransactionStatus) (old : List Transaction)
    → refers (update_rows q (with_status st) old) o ≡ refers old o
refers-updated none q st old = refl
refers-updated (some i) q st old =
    exists_row-update_rows (Rows.has_id i) q (with_status st) old (λ x. refl)

All-refers_updated :
    (q : Transaction → Bool) (st : TransactionStatus) (rows old : List Transaction)
    → All (λ t. refers old t.reversal_of ≡ true) rows
    → All (λ t. refers (update_rows q (with_status st) old) t.reversal_of ≡ true) rows
All-refers_updated q st [] old h = tt
All-refers_updated q st (t ∷ rows) old h =
    (refers-updated t.reversal_of q st old ∙ h.0, All-refers_updated q st rows old h.1)

pub set_status-WellFormed :
    (i : ℕ) (new expected : TransactionStatus) (b : Bool) (d d' : Db)
    → set_status i new expected d ≡ ok (b, d')
    → WellFormed d
    → WellFormed d'
set_status-WellFormed i new expected b d d' e w =
    let q = in_status i expected in
    let f = with_status new in
    let rows = d.transactions in
    let old = w.transactions in
    rw ((set_status_written i new expected b d d' e).1) (record {
      users = w.users;
      accounts = w.accounts;
      cards = w.cards;
      transactions = record {
        ids = Distinct-update_rows _ q f rows (λ x y. refl) (λ x y. refl) old.ids;
        cards_known = All-update_rows _ q f rows (λ x h. h) old.cards_known;
        accounts_known = All-update_rows _ q f rows (λ x h. h) old.accounts_known;
        originals_known =
            All-refers_updated q new (update_rows q f rows) rows
              (All-update_rows _ q f rows (λ x h. h) old.originals_known);
        positive = All-update_rows _ q f rows (λ x h. h) old.positive;
        fits = All-update_rows _ q f rows (λ x h. h) old.fits;
      };
      sessions = w.sessions;
      logs = w.logs;
      archive = w.archive;
    })
