-- ===== src/Services/Transactions/Ledger/Spends.antt =====
-- What an action has taken from an account's ledger when it returns: the steps of a payment take an
-- amount, or give one back, and the whole payment takes nothing.
use bank_transaction_system.Base.{
  ℕ, ◌≡◌, refl, ◌∙◌, Bool-cases, inl, inr, Bool, true, false, if◌then◌else◌,
}
use bank_transaction_system.Base.Int.{ℤ, pos, ◌+ℤ◌, ◌-ℤ◌, int_laws}
use bank_transaction_system.Models.{Db}
use bank_transaction_system.Orm.{Result, ok, err, Session, Action, finished, continue, ◌>>=◌, Orm}
use bank_transaction_system.Orm.Ends.{Ends}
use bank_transaction_system.Orm.Relates.{Relates, IsPreorder}
use bank_transaction_system.Services.Transactions.Ledger.{ledger}

module _ (i : ℕ) where
  abbrev pub Conserves : Db → Db → Type 0
  Conserves d d' = ledger i d' ≡ ledger i d

  pub Conserves-pre : IsPreorder Conserves
  Conserves-pre = record { reflexive = λ d. refl; transitive = λ e f. f ∙ e }

  -- `x` has been taken.
  abbrev pub Took : ℤ → Db → Db → Type 0
  Took x d d' = ledger i d' +ℤ x ≡ ledger i d

  -- `f a` has been taken when `a` is returned.
  pub record Spends {A : Type 0} (f : A → ℤ) (m : Action A) : Type 0 where
    pub at : (s : Session) → Ends (λ a d'. Took (f a) s.db d') (m s)

  Took-both : (x y : ℤ) (b c d : Db) → Took x b c → Took (y -ℤ x) c d → Took y b d
  Took-both x y b c d h k = grind (int_laws, h, k)

  Took-none : (d d' : Db) → Conserves d d' → Took (pos 0) d d'
  Took-none d d' h = grind (int_laws, h)

  Took-nothing : (d d' : Db) → Took (pos 0) d d' → Conserves d d'
  Took-nothing d d' h = grind (int_laws, h)

  pub Ends-conserved :
      {A : Type 0} (d : Db) (r : Result A × Session)
      → Conserves d r.1.db
      → Ends (λ a d'. Took (pos 0) d d') r
  Ends-conserved d (ok a, s) h = Took-none d s.db h
  Ends-conserved d (err e, s) h = tt

  pub Spends-nothing : {A : Type 0} (m : Action A) → Relates Conserves m → Spends (λ a. pos 0) m
  Spends-nothing m h = record { at = λ s. Ends-conserved s.db (m s) (h.at s) }

  then-Spends :
      {B : Type 0} (d c : Db) (x : ℤ) (r : Result B × Session) (g : B → ℤ)
      → Took x d c
      → Ends (λ b d'. Took (g b -ℤ x) c d') r
      → Ends (λ b d'. Took (g b) d d') r
  then-Spends d c x (ok b, t) g h k = Took-both x (g b) d c t.db h k
  then-Spends d c x (err e, t) g h k = tt

  continue-Spends :
      {A B : Type 0} (d : Db) (r : Result A × Session) (f : A → ℤ) (g : B → ℤ) (k : A → Action B)
      → Ends (λ a d'. Took (f a) d d') r
      → ((a : A) → Spends (λ b. g b -ℤ f a) (k a))
      → Ends (λ b d'. Took (g b) d d') (continue r k)
  continue-Spends d (ok a, s) f g k h hk = then-Spends d s.db (f a) (k a s) g h ((hk a).at s)
  continue-Spends d (err e, s) f g k h hk = tt

  pub Spends-bind :
      {A B : Type 0} (f : A → ℤ) (g : B → ℤ) (m : Action A) (k : A → Action B)
      → Spends f m
      → ((a : A) → Spends (λ b. g b -ℤ f a) (k a))
      → Spends g (m >>= k)
  Spends-bind f g m k h hk = record { at = λ s. continue-Spends s.db (m s) f g k (h.at s) hk }

  pub Spends-if :
      {A : Type 0} (b : Bool) (f : A → ℤ) (m n : Action A)
      → Spends f m
      → Spends f n
      → Spends f (if b then m else n)
  Spends-if true f m n h k = h
  Spends-if false f m n h k = k

  finished-Conserves :
      {A : Type 0} (s : Session) (r : Result A × Session)
      → Ends (λ a d'. Took (pos 0) s.db d') r
      → Conserves s.db (finished s r).1.db
  finished-Conserves s (ok a, t) h = Took-nothing s.db t.db h
  finished-Conserves s (err e, t) h = refl

  -- A transaction that takes nothing when it is committed takes nothing when it is rolled back.
  pub Conserves-begin :
      {A : Type 0} ⦃orm : Orm⦄ (m : Action A)
      → Spends (λ a. pos 0) m
      → Relates Conserves (orm.begin A m)
  Conserves-begin ⦃orm⦄ m h = record {
    at = λ s. elim (Bool-cases s.in_transaction) [
      | inl begun ↦ rw (orm.begin_begun _ m s begun) refl
      | inr idle ↦ rw (orm.begin_idle _ m s idle) (
          finished-Conserves s (m (record s { in_transaction = true }))
            (h.at (record s { in_transaction = true })))
    ];
  }
