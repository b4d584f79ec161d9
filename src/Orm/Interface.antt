-- ===== src/Orm/Interface.antt =====
-- SQLAlchemy's session as an interface: its operations, and the documented behaviour that the code
-- relies on.
use bank_transaction_system.Base.{◌≡◌, true, false, Option, none, some, List, [], ◌∷◌}
use bank_transaction_system.Models.{Db}
use bank_transaction_system.Orm.Effect.{
  Result, ok, err, invalid_request, multiple_results, Session, Action,
}

-- One SQL statement: it reads and writes the tables, or it violates a constraint.
abbrev pub Statement : Type 0 → Type 0
Statement A = Db → Result (A × Db)

-- An execution begins a transaction where none is begun (autobegin). A statement that fails has
-- written nothing.
abbrev pub executed : {A : Type 0} → Session → Result (A × Db) → Result A × Session
executed s (ok (a, d)) = (ok a, record s { db = d; in_transaction = true })
executed s (err e) = (err e, record s { in_transaction = true })

-- The end of `async with db.begin()`: commit, or roll back and raise.
abbrev pub finished : {A : Type 0} → Session → Result A × Session → Result A × Session
finished s (ok a, t) = (ok a, record t { in_transaction = false })
finished s (err e, t) = (err e, record t { db = s.db; in_transaction = false })

pub record Orm : Type 1 where
  pub execute : (A : Type 0) → Statement A → Action A
  pub scalar_one_or_none : (A : Type 0) → List A → Result (Option A)
  pub begin : (A : Type 0) → Action A → Action A
  pub commit : Action (Unit {0})
  pub execute_lem :
      (A : Type 0) (q : Statement A) (s : Session) → execute A q s ≡ executed s (q s.db)
  pub scalar_nil : (A : Type 0) → scalar_one_or_none A [] ≡ ok none
  pub scalar_one : (A : Type 0) (x : A) → scalar_one_or_none A (x ∷ []) ≡ ok (some x)
  pub scalar_many :
      (A : Type 0) (x y : A) (rows : List A)
      → scalar_one_or_none A (x ∷ y ∷ rows) ≡ err multiple_results
  -- A second `begin` on a session is refused.
  pub begin_begun :
      (A : Type 0) (m : Action A) (s : Session)
      → s.in_transaction ≡ true
      → begin A m s ≡ (err invalid_request, s)
  pub begin_idle :
      (A : Type 0) (m : Action A) (s : Session)
      → s.in_transaction ≡ false
      → begin A m s ≡ finished s (m (record s { in_transaction = true }))
  pub commit_lem : (s : Session) → commit s ≡ (ok tt, record s { in_transaction = false })
