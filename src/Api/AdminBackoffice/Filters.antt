-- ===== src/Api/AdminBackoffice/Filters.antt =====
-- The texts of the filters of backend/app/api/api_v1/endpoints/admin_backoffice.py.
use bank_transaction_system.Base.{String, ◌≡◌, refl, false, some, str_eq}
use bank_transaction_system.Models.{User, TransactionStatus, TransactionType}
use bank_transaction_system.Platform.{Platform}
use bank_transaction_system.Orm.{ok, err, value_error, Session, Env, Orm}
use bank_transaction_system.Services.Archive.{status_text, type_text}
use bank_transaction_system.Deps.{admin_dep}
use bank_transaction_system.Api.AdminBackoffice.{
  status_of_text, type_of_text, optional_enum, ListQuery, list_transactions,
}

-- The text of a status, as the archive writes it, is read back to that status by the filter of the
-- admin's list.
pub status_of-text :
    (st : TransactionStatus) → optional_enum status_of_text (some (status_text st)) ≡ ok (some st)
unfolding optional_enum status_of_text
status_of-text TransactionStatus.pending = refl
status_of-text TransactionStatus.completed = refl
status_of-text TransactionStatus.failed = refl
status_of-text TransactionStatus.scheduled = refl
status_of-text TransactionStatus.processing = refl

-- The text of a type, as the archive writes it, is read back to that type by the filter of the
-- admin's list.
pub type_of-text :
    (ty : TransactionType) → optional_enum type_of_text (some (type_text ty)) ≡ ok (some ty)
unfolding optional_enum type_of_text
type_of-text TransactionType.national = refl
type_of-text TransactionType.international = refl

module _ ⦃orm : Orm⦄ ⦃p : Platform⦄ where
  -- For an admin, a status filter whose text is not empty and is the text of none of the five
  -- statuses raises ValueError, which no handler of the endpoint turns into a 4xx, and nothing is
  -- read; the text of each status is read as that status.
  pub unknown_status_raises :
      (env : Env) (token : String) (q : ListQuery) (text : String) (s t : Session) (admin : User)
      → admin_dep env token s ≡ (ok admin, t)
      → q.tx_status ≡ some text
      → str_eq text "" ≡ false
      → ((st : TransactionStatus) → str_eq text (status_text st) ≡ false)
      → (list_transactions env token q s ≡ (err value_error, t))
        × ((st : TransactionStatus)
            → optional_enum status_of_text (some (status_text st)) ≡ ok (some st))
  unfolding list_transactions optional_enum status_of_text
  unknown_status_raises env token q text s t admin allowed asked nonempty unknown = (
    rw allowed (
        rw asked (
          simp (
            nonempty,
            unknown TransactionStatus.pending,
            unknown TransactionStatus.completed,
            unknown TransactionStatus.failed,
            unknown TransactionStatus.scheduled,
            unknown TransactionStatus.processing,
          ))),
    status_of-text,
  )
