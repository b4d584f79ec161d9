-- ===== src/Tests/Jobs.antt =====
-- The internal jobs, the backup, the admin's filters, the payloads' validators and the script.
use bank_transaction_system.Base.{ℕ, ◌≡◌, refl, Bool, false, str_eq, some, none, [], ◌∷◌, ◌&&◌, leb}
use bank_transaction_system.Base.Rows.{select, exists_row}
use bank_transaction_system.Base.Int.{pos}
use bank_transaction_system.Models.{User, UserRole, TransactionType, TransactionStatus, empty_db}
use bank_transaction_system.Orm.{ok, err, integrity, check, value_error, Session}
use bank_transaction_system.Crud.Statements.{begun, bigint_fits, select_one, select_all}
use bank_transaction_system.Crud.Users
use bank_transaction_system.Crud.Users.{insert_user}
use bank_transaction_system.Crud.Audit
use bank_transaction_system.Crud.Cards.{insert_card, new_card}
use bank_transaction_system.Crud.Transactions.{insert_transaction, new_transaction}
use bank_transaction_system.Schemas.Validators.{
  Today, TransactionBody, Datetime, payload_of, validate_transaction, fits, accepts_card,
  accepts_fields, card_is_expired, scheduled_for_must_be_future,
}
use bank_transaction_system.Services.Archive.{status_text}
use bank_transaction_system.Platform.{hash_password, hash_session_token, char_count}
use bank_transaction_system.Services.Transactions.{row_of}
use bank_transaction_system.Base.Text.{codes}
use bank_transaction_system.Services.Backup.Url.{pg_dump_args, parse_db_url_for_pg_dump}
use bank_transaction_system.Services.Backup.RoundTrip.{DbUrl, IsUrl, parts, parse-write}
use bank_transaction_system.Deps.{
  admin_dep, forbidden, get_current_user, check_expiry, load_user, get_current_admin,
}
use bank_transaction_system.Api.AdminBackoffice.{
  ListQuery, optional_enum, status_of_text, list_transactions,
}
use bank_transaction_system.Api.AdminBackoffice.Filters.{unknown_status_raises}
use bank_transaction_system.Api.Transactions.Checks.{accepted_rows_pass_checks}
use bank_transaction_system.Api.Internal.Endpoints.{
  run_archive_transactions, process_scheduled_transactions, accept_daily_backup, process_scheduled,
}
use bank_transaction_system.Api.Internal.Jobs.{jobs_refused}
use bank_transaction_system.Scripts.{seed, seed_missing}
use bank_transaction_system.Scripts.Seeded.{seed_once}
use bank_transaction_system.Tests.Fixtures.{
  serial, plain, env, alice, card, start, bank, on_db, card_input,
}

abbrev url : DbUrl
url = record {
  driver = some (codes "asyncpg");
  user = codes "bank";
  password = some (codes "p:w");
  host = codes "db";
  port = some (codes "5433");
  dbname = codes "bank_db";
  query = some (codes "ssl=1");
}

abbrev is_digit : ℕ → Bool
is_digit c = leb b'0' c && leb c b'9'

url-IsUrl : IsUrl is_digit url
url-IsUrl = record {
  driver = (refl, (refl, (refl, (refl, (refl, (refl, (refl, tt)))))));
  user = (refl, (refl, (refl, (refl, tt))));
  password = (refl, (refl, (refl, tt)));
  host = (refl, (refl, tt));
  port = (refl, (refl, (refl, (refl, tt))));
  dbname = (refl, (refl, (refl, (refl, (refl, (refl, (refl, tt)))))));
}

parse-write_example :
    parse_db_url_for_pg_dump is_digit (codes "postgresql+asyncpg://bank:p:w@db:5433/bank_db?ssl=1")
    ≡ some (pg_dump_args (parts url))
parse-write_example = parse-write is_digit url refl url-IsUrl

jobs_refused_example :
    (run_archive_transactions none start ≡ (err forbidden, start))
    × (process_scheduled_transactions none start ≡ (err forbidden, start))
    × (accept_daily_backup none start ≡ (err forbidden, start))
    × (process_scheduled env none 30 start ≡ (err forbidden, start))
jobs_refused_example = jobs_refused none start env 30 refl

-- An admin, with a session.
abbrev admin : User
admin = record alice { role = UserRole.admin; registered_ip = none }

abbrev admin_in : Session
admin_in = on_db (record bank {
  users = admin ∷ [];
  sessions =
      record {
        id = 40;
        user_id = 1;
        token_hash = "token";
        ip_address = none;
        created_at = 1;
        expires_at = 1500;
      }
      ∷ [];
})

abbrev query : ListQuery
query = record {
  user_id = none;
  account_id = none;
  tx_status = some "done";
  tx_type = none;
  date_from = none;
  date_to = none;
  limit = 50;
  offset = 0;
}

done_unknown : (st : TransactionStatus) → str_eq "done" (status_text st) ≡ false
done_unknown TransactionStatus.pending = refl
done_unknown TransactionStatus.completed = refl
done_unknown TransactionStatus.failed = refl
done_unknown TransactionStatus.scheduled = refl
done_unknown TransactionStatus.processing = refl

unknown_status_raises_example :
    (list_transactions env "token" query admin_in ≡ (err value_error, admin_in))
    × ((st : TransactionStatus)
        → optional_enum status_of_text (some (status_text st)) ≡ ok (some st))
unfolding admin_dep get_current_user check_expiry load_user get_current_admin hash_session_token
    select Audit.get_by_token_hash Users.get select_one
unknown_status_raises_example =
    unknown_status_raises env "token" query "done" admin_in admin_in admin refl refl refl
      done_unknown

abbrev may : Today
may = record { year_of_century = 26; month = 5 }

abbrev body : TransactionBody
body = record {
  card = record card_input { number = "4111-1111-1111-1222" };
  destination_account = "ES91";
  amount = pos 200;
  type = TransactionType.national;
  scheduled_for = some (Datetime.aware 2000);
  reversal_of = none;
}

accepted_rows_pass_checks_example :
    ¬ (
      insert_card
        (new_card env (record {
          account_id = 10;
          card_type = body.card.card_type;
          number_hmac = "4111111111111222";
          number_last4 = "1222";
          expiration_month = 12;
          expiration_year = 30;
        }))
        bank
      ≡ err (integrity check))
    × ¬ (
        insert_transaction
          (new_transaction env
            (row_of (payload_of body (some 2000)) card TransactionStatus.scheduled))
          bank
        ≡ err (integrity check))
unfolding validate_transaction accepts_fields accepts_card fits card_is_expired
    scheduled_for_must_be_future char_count
accepted_rows_pass_checks_example =
    accepted_rows_pass_checks is_digit may 1000 body (payload_of body (some 2000)) refl env card 10
      "4111111111111222" "1222" TransactionStatus.scheduled bank

-- The session after the script has run.
abbrev seeded_once : Session
seeded_once = (seed env "change-me" (on_db empty_db)).1

seed_once_example : seed env "other" seeded_once ≡ (ok tt, begun seeded_once)
unfolding seed seed_missing Users.create_admin Users.create_hashed insert_user bigint_fits
    hash_password select_all select exists_row
seed_once_example =
    seed_once env env "change-me" "other" (on_db empty_db) seeded_once seeded_once refl refl
