-- ===== src/Crud/Statements.antt =====
-- Building blocks of the SQL statements of backend/app/crud: a read, and the columns' checks.
use bank_transaction_system.Base.{ℕ, ◌≡◌, Bool, true, Option, ltb, ◌^◌, List, ◌+◌}
use bank_transaction_system.Base.Int.{ℤ, pos_part, neg_part}
use bank_transaction_system.Models.{Db}
use bank_transaction_system.Orm.{
  Action, Session, ok, ◌>>=◌, Statement, Orm, execute, scalar_one_or_none, at_most_one, scalar_lem,
}

-- `db.execute(select(...))`: every row that the query gives
abbrev pub reading : {A : Type 0} → (Db → A) → Statement A
reading q d = ok (q d, d)

-- What a DECIMAL(19, 4) column can hold, in ten-thousandths.
unfoldable pub numeric_fits : ℤ → Bool
numeric_fits x = ltb (pos_part x + neg_part x) (10 ^ 19)

-- What a BIGINT column can hold; the numbers of users are not negative.
unfoldable pub bigint_fits : ℕ → Bool
bigint_fits n = ltb n (2 ^ 63)

-- the session after a statement that only reads: a transaction is begun
abbrev pub begun : Session → Session
begun s = record s { in_transaction = true }

module _ ⦃orm : Orm⦄ {A : Type 0} where
  -- `(await db.execute(select(...))).scalars().all()`
  unfoldable pub select_all : (Db → List A) → Action (List A)
  select_all q = execute (reading q)

  -- `(await db.execute(select(...))).scalar_one_or_none()`
  unfoldable pub select_one : (Db → List A) → Action (Option A)
  select_one q = do rows ← execute (reading q); scalar_one_or_none rows

  pub select_all_lem : (q : Db → List A) (s : Session) → select_all q s ≡ (ok (q s.db), begun s)
  unfolding select_all
  select_all_lem q s = orm.execute_lem (List A) (reading q) s

  pub select_one_lem :
      (q : Db → List A) (s : Session) → select_one q s ≡ (at_most_one (q s.db), begun s)
  unfolding select_one
  select_one_lem q s = rw (orm.execute_lem (List A) (reading q) s) (rw (scalar_lem (q s.db)))
