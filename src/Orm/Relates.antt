-- ===== src/Orm/Relates.antt =====
-- How an action moves the database, by a relation that is reflexive and transitive: one rule for
-- each way to build an action. An invariant `P` is the relation `P d → P d'`.
use bank_transaction_system.Base.{
  ◌≡◌, refl, Bool, true, false, Option, none, some, if◌then◌else◌, Bool-cases, inl, inr,
}
use bank_transaction_system.Models.{Db}
use bank_transaction_system.Orm.Effect.{
  Error, Result, ok, err, http, integrity, data_error, multiple_results, invalid_request, sqs_error,
  attribute_error, assertion_error, value_error, Constraint, Session, Action, pure, raise, or_raise,
  raise_if, lift, continue, ◌>>=◌, on_integrity_error,
}
use bank_transaction_system.Orm.Interface.{Statement, executed, finished, Orm}

pub record Relates {A : Type 0} (R : Db → Db → Type 0) (m : Action A) : Type 0 where
  pub at : (s : Session) → R s.db (m s).1.db

pub record IsPreorder (R : Db → Db → Type 0) : Type 0 where
  pub reflexive : (d : Db) → R d d
  pub transitive : {c d e : Db} → R c d → R d e → R c e

module _ {R : Db → Db → Type 0} (pre : IsPreorder R) where
  pub Relates-pure : {A : Type 0} (a : A) → Relates R (pure a)
  Relates-pure a = record { at = λ s. pre.reflexive s.db }

  pub Relates-raise : {A : Type 0} (e : Error) → Relates R (raise {A = A} e)
  Relates-raise e = record { at = λ s. pre.reflexive s.db }

  pub Relates-or_raise : {A : Type 0} (o : Option A) (e : Error) → Relates R (or_raise o e)
  Relates-or_raise none e = Relates-raise e
  Relates-or_raise (some a) e = Relates-pure a

  pub Relates-raise_if : (b : Bool) (e : Error) → Relates R (raise_if b e)
  Relates-raise_if true e = record { at = λ s. pre.reflexive s.db }
  Relates-raise_if false e = record { at = λ s. pre.reflexive s.db }

  pub Relates-if :
      {A : Type 0} (b : Bool) (m n : Action A)
      → Relates R m
      → Relates R n
      → Relates R (if b then m else n)
  Relates-if true m n km kn = km
  Relates-if false m n km kn = kn

  continue-related :
      {A B : Type 0} {d : Db} (r : Result A × Session) (f : A → Action B)
      → R d r.1.db
      → ((a : A) → Relates R (f a))
      → R d (continue r f).1.db
  continue-related (ok a, s) f h kf = pre.transitive h ((kf a).at s)
  continue-related (err e, s) f h kf = h

  pub Relates-bind :
      {A B : Type 0} (m : Action A) (f : A → Action B)
      → Relates R m
      → ((a : A) → Relates R (f a))
      → Relates R (m >>= f)
  Relates-bind m f km kf = record { at = λ s. continue-related (m s) f (km.at s) kf }

  pub executed-related :
      {A : Type 0} (s : Session) (r : Result (A × Db))
      → ((a : A) (d' : Db) → r ≡ ok (a, d') → R s.db d')
      → R s.db (executed s r).1.db
  executed-related s (ok (a, d')) h = h a d' refl
  executed-related s (err e) h = pre.reflexive s.db

  finished-related :
      {A : Type 0} (s : Session) (r : Result A × Session)
      → R s.db r.1.db
      → R s.db (finished s r).1.db
  finished-related s (ok a, t) h = h
  finished-related s (err e, t) h = pre.reflexive s.db

  on_integrity-related :
      {A : Type 0} {d : Db} (r : Result A × Session) (handler : Constraint → Action A)
      → R d r.1.db
      → ((c : Constraint) → Relates R (handler c))
      → R d (on_integrity_error r handler).1.db
  on_integrity-related (ok a, s) handler h k = h
  on_integrity-related (err (integrity c), s) handler h k = pre.transitive h ((k c).at s)
  on_integrity-related (err (http c m), s) handler h k = h
  on_integrity-related (err data_error, s) handler h k = h
  on_integrity-related (err multiple_results, s) handler h k = h
  on_integrity-related (err invalid_request, s) handler h k = h
  on_integrity-related (err sqs_error, s) handler h k = h
  on_integrity-related (err attribute_error, s) handler h k = h
  on_integrity-related (err value_error, s) handler h k = h
  on_integrity-related (err assertion_error, s) handler h k = h

  pub Relates-on_integrity_error :
      {A : Type 0} (m : Action A) (handler : Constraint → Action A)
      → Relates R m
      → ((c : Constraint) → Relates R (handler c))
      → Relates R (λ s. on_integrity_error (m s) handler)
  Relates-on_integrity_error m handler km kh = record {
    at = λ s. on_integrity-related (m s) handler (km.at s) kh;
  }

  pub Relates-lift : {A : Type 0} (r : Result A) → Relates R (lift r)
  Relates-lift r = record { at = λ s. pre.reflexive s.db }

  module _ ⦃orm : Orm⦄ where
    pub Relates-commit : Relates R orm.commit
    Relates-commit = record { at = λ s. rw (orm.commit_lem s) (pre.reflexive s.db) }

    pub Relates-execute :
        {A : Type 0} (q : Statement A)
        → ((a : A) (d d' : Db) → q d ≡ ok (a, d') → R d d')
        → Relates R (orm.execute A q)
    Relates-execute {A} q h = record {
      at = λ s. rw (orm.execute_lem A q s) (executed-related s (q s.db) (λ a d'. h a s.db d'));
    }

    pub Relates-begin : {A : Type 0} (m : Action A) → Relates R m → Relates R (orm.begin A m)
    Relates-begin {A} m km = record {
      at = λ s. elim (Bool-cases s.in_transaction) [
        | inl begun ↦ rw (orm.begin_begun A m s begun) (pre.reflexive s.db)
        | inr idle ↦ rw (orm.begin_idle A m s idle) (
            finished-related s (m (record s { in_transaction = true }))
              (km.at (record s { in_transaction = true })))
      ];
    }
