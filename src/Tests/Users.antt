-- ===== src/Tests/Users.antt =====
-- Registrations.
use bank_transaction_system.Base.{◌≡◌, refl, none, String}
use bank_transaction_system.Base.Rows.{exists_row}
use bank_transaction_system.Schemas.{UserCreate}
use bank_transaction_system.Platform.{hash_password}
use bank_transaction_system.Orm.{ok}
use bank_transaction_system.Crud.Statements.{bigint_fits}
use bank_transaction_system.Services.Users.{register_customer}
use bank_transaction_system.Services.Users.Registration.{
  IsFree, registers, customer, opened_account, with_user, with_account,
}
use bank_transaction_system.Tests.Fixtures.{serial, plain, env, start, bank, on_db}

abbrev form : String → UserCreate
form email = record {
  name = "Carol";
  email = email;
  password = "secret2";
  national_id = 33;
  phone = 333;
  registered_ip = none;
}

abbrev carol : UserCreate
carol = form "carol@bank"

carol-IsFree : IsFree carol bank
unfolding exists_row
carol-IsFree = record { email = refl; national_id = refl; phone = refl }

registers_example : register_customer env carol start ≡ (
  ok (customer env carol start refl "secret2", opened_account env carol start refl "secret2"),
  on_db (
      with_account
        (opened_account env carol start refl "secret2")
        (with_user (customer env carol start refl "secret2") bank)),
)
unfolding exists_row hash_password bigint_fits
registers_example =
    registers env carol start refl "secret2" refl carol-IsFree carol-IsFree refl refl refl
