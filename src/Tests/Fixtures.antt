-- ===== src/Tests/Fixtures.antt =====
-- A session without concurrency, hash functions that leave the text as it is, and a bank with two
-- customers.
use mathlib.Core.Option.{some-injective}
use bank_transaction_system.Base.{ℕ, refl, true, false, some, none, [], ◌∷◌, str_eq, str_eq_refl}
use bank_transaction_system.Base.Int.{pos}
use bank_transaction_system.Models.{
  User, UserRole, Account, Card, CardType, Transaction, TransactionType, TransactionMethod,
  TransactionStatus, Db, empty_db,
}
use bank_transaction_system.Schemas.{CardInput, TransactionCreate}
use bank_transaction_system.Platform.{Platform}
use bank_transaction_system.Orm.{ok, Session, Env, Orm, executed, at_most_one, transaction_on}

instance abbrev pub serial : Orm
serial = record {
  execute = λ A q s. executed s (q s.db);
  scalar_one_or_none = λ A. at_most_one;
  begin = λ A m s. transaction_on s.in_transaction m s;
  commit = λ s. (ok tt, record s { in_transaction = false });
  execute_lem = λ A q s. refl;
  scalar_nil = λ A. refl;
  scalar_one = λ A x. refl;
  scalar_many = λ A x y rows. refl;
  begin_begun = λ A m s h. rw h;
  begin_idle = λ A m s h. rw h;
  commit_lem = λ s. refl;
}

instance abbrev pub plain : Platform
plain = record {
  hmac_sha256 = λ key message. message;
  sha256 = λ text. text;
  hashpw = λ text salt. some text;
  checkpw = λ text hashed. some (str_eq text hashed);
  pan_hmac_key = "key";
  internal_service_api_key = "internal";
  checkpw-hashpw = λ text salt hash h. rw (← str_eq_refl hash) (rw (some-injective text hash h));
}

-- The clock, new identifiers, and an SQS that accepts or refuses every message.
abbrev pub env : Env
env = record {
  now = 1000;
  uuid4 = λ table. 77;
  token_urlsafe = "token";
  gensalt = "salt";
  client_host = some "10.0.0.1";
  sqs_accepts = λ m. true;
  commits = λ d. d;
}

abbrev pub env_refusing : Env
env_refusing = record env { sqs_accepts = λ m. false }

abbrev pub alice : User
alice = record {
  id = 1;
  name = "Alice";
  national_id = 11;
  email = "alice@bank";
  phone = 111;
  password_hash = "secret";
  role = UserRole.customer;
  registered_ip = some "10.0.0.1";
  created_at = 1;
  updated_at = 1;
}

-- Her address is another one than the client's.
abbrev pub alice_abroad : User
alice_abroad = record alice { registered_ip = some "10.9.9.9" }

abbrev pub bob : User
bob = record alice { id = 2; name = "Bob"; national_id = 22; email = "bob@bank"; phone = 222 }

abbrev pub account : Account
account = record { id = 10; user_id = 1; balance = pos 500; created_at = 1 }

abbrev pub card : Card
card = record {
  id = 20;
  account_id = 10;
  card_type = CardType.debit;
  number_hmac = "4111222";
  number_last4 = "1222";
  expiration_month = 12;
  expiration_year = 30;
  created_at = 1;
}

abbrev pub credit_card : Card
credit_card = record card { id = 21; card_type = CardType.credit; number_hmac = "5111222" }

-- A payment of alice's that falls due at the time of `env`.
abbrev pub due : Transaction
due = record {
  id = 30;
  source_card = 20;
  origin_account = 10;
  destination_account = "ES91";
  amount = pos 200;
  type = TransactionType.national;
  method = TransactionMethod.debit;
  status = TransactionStatus.scheduled;
  scheduled_for = some 1000;
  reversal_of = none;
  created_at = 5;
}

abbrev pub bank : Db
bank = record empty_db {
  users = alice ∷ bob ∷ [];
  accounts = account ∷ [];
  cards = card ∷ credit_card ∷ [];
}

abbrev pub on_db : Db → Session
on_db d = record { db = d; in_transaction = false; sent = []; background_tasks = [] }

abbrev pub start : Session
start = on_db bank

-- The bank with a scheduled payment.
abbrev pub with_due : Transaction → Session
with_due t = on_db (record bank { transactions = t ∷ [] })

abbrev pub card_input : CardInput
card_input = record {
  number = "4111-222";
  expiration_month = 12;
  expiration_year = 30;
  cvv = "123";
  card_type = CardType.debit;
}

abbrev pub credit_input : CardInput
credit_input = record card_input { number = "5111-222"; card_type = CardType.credit }

abbrev pub payment : ℕ → TransactionCreate
payment amount = record {
  card = card_input;
  destination_account = "ES91";
  amount = pos amount;
  type = TransactionType.national;
  scheduled_for = none;
  reversal_of = none;
}
