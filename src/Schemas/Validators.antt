-- ===== src/Schemas/Validators.antt =====
-- The validators of backend/app/schemas/card.py and transaction.py. A datetime is its instant, with
-- or without a time zone.
use Prim.Native.Char.{code}
use bank_transaction_system.Base.{
  ℕ, String, Bool, true, false, Option, none, some, List, [], ◌∷◌, ◌++◌, ◌==◌, ◌&&◌, ◌||◌, not, ltb,
  leb, if◌then◌else◌,
}
use bank_transaction_system.Base.Int.{ℤ, pos, leb_ℤ}
use bank_transaction_system.Models.{TransactionType}
use bank_transaction_system.Platform.{char_count}
use bank_transaction_system.Schemas.Payloads.{CardInput, TransactionCreate}

-- One place of a pattern: `\d`, or a character. `is_digit` is pydantic's `\d`.
abbrev pub at_place : (ℕ → Bool) → Option ℕ → ℕ → Bool
at_place is_digit none c = is_digit c
at_place is_digit (some d) c = c == d

-- `^...$`
unfoldable pub fits : (ℕ → Bool) → List (Option ℕ) → String → Bool
fits is_digit [] String.[] = true
fits is_digit [] (String.◌∷◌ c s) = false
fits is_digit (place ∷ places) String.[] = false
fits is_digit (place ∷ places) (String.◌∷◌ c s) =
    at_place is_digit place (code c) && fits is_digit places s

abbrev four_digits : List (Option ℕ)
four_digits = none ∷ none ∷ none ∷ none ∷ []

abbrev hyphen : List (Option ℕ)
hyphen = some b'-' ∷ []

-- `^\d{4}-\d{4}-\d{4}-\d{4}$`
abbrev pub number_pattern : List (Option ℕ)
number_pattern =
    four_digits ++ hyphen ++ four_digits ++ hyphen ++ four_digits ++ hyphen ++ four_digits

-- `^\d{3}$`
abbrev pub cvv_pattern : List (Option ℕ)
cvv_pattern = none ∷ none ∷ none ∷ []

-- `datetime.now()`: its year and its month
pub record Today : Type 0 where
  pub year_of_century : ℕ
  pub month : ℕ

unfoldable pub card_is_expired : Today → CardInput → Bool
card_is_expired today card =
    ltb card.expiration_year today.year_of_century
    || card.expiration_year == today.year_of_century && ltb card.expiration_month today.month

-- The fields of `CardInput`, and `card_must_not_be_expired`.
unfoldable pub accepts_card : (ℕ → Bool) → Today → CardInput → Bool
accepts_card is_digit today card =
    fits is_digit number_pattern card.number
    && leb 1 card.expiration_month
    && leb card.expiration_month 12
    && leb 26 card.expiration_year
    && leb card.expiration_year 99
    && fits is_digit cvv_pattern card.cvv
    && not (card_is_expired today card)

-- `v`: a naive datetime, or an aware one with its instant in UTC.
pub data Datetime : Type 0 where
  naive aware : ℕ → Datetime

-- `v.astimezone(UTC).replace(tzinfo=None)`
abbrev pub normalized : Datetime → ℕ
normalized (Datetime.naive at) = at
normalized (Datetime.aware at) = at

-- `none` is the ValueError.
unfoldable pub scheduled_for_must_be_future : ℕ → Option Datetime → Option (Option ℕ)
scheduled_for_must_be_future now none = some none
scheduled_for_must_be_future now (some v) =
    if leb (normalized v) now then none else some (some (normalized v))

-- The body of a request, before it is validated.
pub record TransactionBody : Type 0 where
  pub card : CardInput
  pub destination_account : String
  pub amount : ℤ
  pub type : TransactionType
  pub scheduled_for : Option Datetime
  pub reversal_of : Option ℕ

abbrev pub payload_of : TransactionBody → Option ℕ → TransactionCreate
payload_of body at = record {
  card = body.card;
  destination_account = body.destination_account;
  amount = body.amount;
  type = body.type;
  scheduled_for = at;
  reversal_of = body.reversal_of;
}

unfoldable pub accepts_fields : (ℕ → Bool) → Today → TransactionBody → Bool
unfolding accepts_card
accepts_fields is_digit today body =
    accepts_card is_digit today body.card
    && leb 1 (char_count body.destination_account)
    && leb (char_count body.destination_account) 255
    && not (leb_ℤ body.amount (pos 0))

abbrev pub with_schedule : Bool → TransactionBody → Option (Option ℕ) → Option TransactionCreate
with_schedule false body at = none
with_schedule true body none = none
with_schedule true body (some at) = some (payload_of body at)

-- `TransactionCreate`: `none` is a 422.
unfoldable pub validate_transaction :
    (ℕ → Bool) → Today → ℕ → TransactionBody → Option TransactionCreate
validate_transaction is_digit today now body =
    with_schedule (accepts_fields is_digit today body) body
      (scheduled_for_must_be_future now body.scheduled_for)
