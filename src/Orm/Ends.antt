-- ===== src/Orm/Ends.antt =====
-- What holds of the result and the session when an action raises nothing.
use bank_transaction_system.Base.{◌≡◌, refl, true, Bool-cases, inl, inr}
use bank_transaction_system.Models.{Db}
use bank_transaction_system.Orm.Effect.{Result, ok, err, Session, Action, continue}
use bank_transaction_system.Orm.Interface.{finished, Orm}

-- `Q` holds of the value and the database of a call that returns.
abbrev pub Ends : {A : Type 0} → (A → Db → Type 0) → Result A × Session → Type 0
Ends Q (ok a, s) = Q a s.db
Ends Q (err e, s) = Unit

module _ {A : Type 0} (Q : A → Db → Type 0) where
  pub Ends-continue :
      {B : Type 0} (r : Result B × Session) (f : B → Action A)
      → ((b : B) (s : Session) → r ≡ (ok b, s) → Ends Q (f b s))
      → Ends Q (continue r f)
  Ends-continue (ok b, s) f h = h b s refl
  Ends-continue (err e, s) f h = tt

  finished-Ends : (s : Session) (r : Result A × Session) → Ends Q r → Ends Q (finished s r)
  finished-Ends s (ok a, t) h = h
  finished-Ends s (err e, t) h = tt

  pub Ends-begin :
      ⦃orm : Orm⦄ (m : Action A) (s : Session)
      → Ends Q (m (record s { in_transaction = true }))
      → Ends Q (orm.begin A m s)
  Ends-begin ⦃orm⦄ m s h = elim (Bool-cases s.in_transaction) [
    | inl begun ↦ rw (orm.begin_begun A m s begun) tt
    | inr idle ↦ rw (orm.begin_idle A m s idle) (finished-Ends s _ h)
  ]
