-- ===== src/Schemas/Accepted.antt =====
-- What the tables need not refuse, once backend/app/schemas has accepted a payload.
use bank_transaction_system.Base.{
  ℕ, ◌≡◌, refl, Bool, true, false, Option, none, some, arith, leb, ltb, ◌&&◌,
}
use bank_transaction_system.Base.Int.{pos, leb_ℤ}
use bank_transaction_system.Schemas.Payloads.{TransactionCreate}
use bank_transaction_system.Schemas.Validators.{
  Today, TransactionBody, accepts_card, accepts_fields, with_schedule, payload_of, Datetime,
  scheduled_for_must_be_future, validate_transaction, card_is_expired,
}

-- What an accepted payload is.
pub record IsAccepted (today : Today) (now : ℕ) (payload : TransactionCreate) : Type 0 where
  pub positive : leb_ℤ payload.amount (pos 0) ≡ false
  pub month : (leb 1 payload.card.expiration_month && leb payload.card.expiration_month 12) ≡ true
  pub year : leb 26 payload.card.expiration_year ≡ true
  pub live : card_is_expired today payload.card ≡ false
  pub future : (at : ℕ) → payload.scheduled_for ≡ some at → ltb now at ≡ true

future-at :
    (now : ℕ) (v : Option Datetime) (checked : Option ℕ) (at : ℕ)
    → scheduled_for_must_be_future now v ≡ some checked
    → checked ≡ some at
    → ltb now at ≡ true
unfolding scheduled_for_must_be_future
future-at now none checked at e f = cc
future-at now (some v) checked at e f = ground (arith, e, f)

IsAccepted-fields :
    (is_digit : ℕ → Bool) (today : Today) (now : ℕ) (body : TransactionBody) (at : Option ℕ)
    → accepts_fields is_digit today body ≡ true
    → scheduled_for_must_be_future now body.scheduled_for ≡ some at
    → IsAccepted today now (payload_of body at)
unfolding accepts_fields accepts_card
IsAccepted-fields is_digit today now body at h e = record {
  positive = ground (arith, h);
  month = ground (arith, h);
  year = ground (arith, h);
  live = ground (arith, h);
  future = λ t. future-at now body.scheduled_for at t e;
}

with_schedule-IsAccepted :
    (is_digit : ℕ → Bool) (today : Today) (now : ℕ) (body : TransactionBody) (b : Bool)
    (o : Option (Option ℕ)) (payload : TransactionCreate)
    → accepts_fields is_digit today body ≡ b
    → scheduled_for_must_be_future now body.scheduled_for ≡ o
    → with_schedule b body o ≡ some payload
    → IsAccepted today now payload
with_schedule-IsAccepted is_digit today now body false o payload h e f = cc
with_schedule-IsAccepted is_digit today now body true none payload h e f = cc
with_schedule-IsAccepted is_digit today now body true (some at) payload h e f =
    let same : payload_of body at ≡ payload = cc in
    coe 0 1 (k. IsAccepted today now (same k)) (IsAccepted-fields is_digit today now body at h e)

-- An accepted payload has a positive amount, a month from 1 to 12, a year from 26 on, a card that
-- is not expired, and no schedule or one in the future.
pub validate-IsAccepted :
    (is_digit : ℕ → Bool) (today : Today) (now : ℕ) (body : TransactionBody)
    (payload : TransactionCreate)
    → validate_transaction is_digit today now body ≡ some payload
    → IsAccepted today now payload
unfolding validate_transaction
validate-IsAccepted is_digit today now body payload e =
    with_schedule-IsAccepted is_digit today now body (accepts_fields is_digit today body)
      (scheduled_for_must_be_future now body.scheduled_for) payload refl refl e
