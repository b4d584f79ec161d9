-- ===== src/Orm/Returns.antt =====
-- What an action returns when it raises nothing.
use bank_transaction_system.Base.{Bool, true, false, if◌then◌else◌}
use bank_transaction_system.Models.{Db}
use bank_transaction_system.Orm.Effect.{
  Error, Result, ok, err, Session, Action, pure, raise, continue, ◌>>=◌,
}
use bank_transaction_system.Orm.Relates.{Relates, IsPreorder}

pub data ReturnsOk {A : Type 0} (Q : A → Type 0) : Result A → Type 0 where
  returns : (a : A) → Q a → ReturnsOk Q (ok a)
  raises : (e : Error) → ReturnsOk Q (err e)

pub record Returns {A : Type 0} (Q : A → Type 0) (m : Action A) : Type 0 where
  pub at : (s : Session) → ReturnsOk Q (m s).0

module _ {A : Type 0} {Q : A → Type 0} where
  pub Returns-pure : (a : A) → Q a → Returns Q (pure a)
  Returns-pure a q = record { at = λ s. ReturnsOk.returns a q }

  pub Returns-raise : (e : Error) → Returns Q (raise e)
  Returns-raise e = record { at = λ s. ReturnsOk.raises e }

  pub Returns-if :
      (b : Bool) (m n : Action A) → Returns Q m → Returns Q n → Returns Q (if b then m else n)
  Returns-if true m n rm rn = rm
  Returns-if false m n rm rn = rn

  continue-Returns :
      {B : Type 0} (r : Result B × Session) (f : B → Action A)
      → ((b : B) → Returns Q (f b))
      → ReturnsOk Q (continue r f).0
  continue-Returns (ok b, s) f rf = (rf b).at s
  continue-Returns (err e, s) f rf = ReturnsOk.raises e

  pub Returns-bind :
      {B : Type 0} (m : Action B) (f : B → Action A)
      → ((b : B) → Returns Q (f b))
      → Returns Q (m >>= f)
  Returns-bind m f rf = record { at = λ s. continue-Returns (m s) f rf }

  module _ {R : Db → Db → Type 0} (pre : IsPreorder R) where
    continue-related :
        {B : Type 0} {d : Db} (r : Result A × Session) (f : A → Action B)
        → ReturnsOk Q r.0
        → R d r.1.db
        → ((a : A) → Q a → Relates R (f a))
        → R d (continue r f).1.db
    continue-related (ok b, s) f (ReturnsOk.returns a q) h kf = pre.transitive h ((kf a q).at s)
    continue-related (err e, s) f q h kf = h

    -- The rest of the block may use what the first action returns.
    pub Relates-bind-Returns :
        {B : Type 0} (m : Action A) (f : A → Action B)
        → Relates R m
        → Returns Q m
        → ((a : A) → Q a → Relates R (f a))
        → Relates R (m >>= f)
    Relates-bind-Returns m f km rm kf = record {
      at = λ s. continue-related (m s) f (rm.at s) (km.at s) kf;
    }
