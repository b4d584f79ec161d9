-- ===== src/Crud/Reads.antt =====
-- Reads leave the database as it is.
use bank_transaction_system.Base.{◌≡◌, List}
use bank_transaction_system.Models.{Db}
use bank_transaction_system.Orm.{Orm}
use bank_transaction_system.Orm.Relates.{Relates, IsPreorder, Relates-bind, Relates-execute}
use bank_transaction_system.Crud.Statements.{reading, select_one}

module _ {R : Db → Db → Type 0} (pre : IsPreorder R) ⦃orm : Orm⦄ where
  pub reading-kept : {A : Type 0} (q : Db → A) → Relates R (orm.execute A (reading q))
  reading-kept q =
      Relates-execute pre (reading q)
        (λ a d d' e. let same : d ≡ d' = cc in rw (← same) (pre.reflexive d))

  pub select_one-kept : {A : Type 0} (q : Db → List A) → Relates R (select_one q)
  unfolding select_one
  select_one-kept q =
      Relates-bind pre _ _ (reading-kept q) (λ rows. record { at = λ s. pre.reflexive s.db })
