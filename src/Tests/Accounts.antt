-- ===== src/Tests/Accounts.antt =====
-- The endpoints of the accounts.
use bank_transaction_system.Base.{◌≡◌, refl, true, ◌^◌}
use bank_transaction_system.Base.Rows.{select}
use bank_transaction_system.Base.Int.{pos, ◌+ℤ◌}
use bank_transaction_system.Orm.{ok, err, data_error}
use bank_transaction_system.Crud.Statements.{numeric_fits}
use bank_transaction_system.Crud.Accounts.{with_balance}
use bank_transaction_system.Api.Accounts.{add_balance}
use bank_transaction_system.Api.Accounts.Balance.{
  credited, add_balance_credits, add_balance_overflow,
}
use bank_transaction_system.Tests.Fixtures.{serial, alice, account, start, bank}

add_balance_credits_example : add_balance (pos 40) alice start ≡ (
  ok (with_balance (account.balance +ℤ pos 40) account),
  record start { db = credited account (pos 40) bank; in_transaction = true },
)
unfolding select numeric_fits ◌+ℤ◌
add_balance_credits_example = add_balance_credits (pos 40) alice start refl account refl refl refl

add_balance_overflow_example : add_balance (pos (10 ^ 19)) alice start ≡ (err data_error, start)
unfolding select numeric_fits ◌+ℤ◌
add_balance_overflow_example =
    add_balance_overflow (pos (10 ^ 19)) alice start refl account refl refl refl
