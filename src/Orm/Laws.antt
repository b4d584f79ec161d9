-- ===== src/Orm/Laws.antt =====
-- The interface's operations with the type implicit, their laws in one equation each, and a
-- session that has them.
use bank_transaction_system.Base.{◌≡◌, Bool, true, false, Option, none, some, List, [], ◌∷◌}
use bank_transaction_system.Orm.Effect.{
  Result, ok, err, invalid_request, multiple_results, Action, lift,
}
use bank_transaction_system.Orm.Interface.{Statement, finished, Orm}

abbrev pub at_most_one : {A : Type 0} → List A → Result (Option A)
at_most_one [] = ok none
at_most_one (x ∷ []) = ok (some x)
at_most_one (x ∷ y ∷ rows) = err multiple_results

-- `async with db.begin()` on a session
abbrev pub transaction_on : {A : Type 0} → Bool → Action A → Action A
transaction_on true m s = (err invalid_request, s)
transaction_on false m s = finished s (m (record s { in_transaction = true }))

module _ ⦃orm : Orm⦄ {A : Type 0} where
  abbrev pub execute : Statement A → Action A
  execute = orm.execute A

  abbrev pub scalar_one_or_none : List A → Action (Option A)
  scalar_one_or_none rows = lift (orm.scalar_one_or_none A rows)

  abbrev pub begin : Action A → Action A
  begin = orm.begin A

  pub scalar_lem : (rows : List A) → orm.scalar_one_or_none A rows ≡ at_most_one rows
  scalar_lem [] = orm.scalar_nil A
  scalar_lem (x ∷ []) = orm.scalar_one A x
  scalar_lem (x ∷ y ∷ rows) = orm.scalar_many A x y rows

abbrev pub commit : ⦃orm : Orm⦄ → Action (Unit {0})
commit ⦃orm⦄ = orm.commit
