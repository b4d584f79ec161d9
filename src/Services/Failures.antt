-- ===== src/Services/Failures.antt =====
-- The HTTPExceptions of backend/app/services/transaction_service.py. The details that quote an
-- identifier leave it out.
use bank_transaction_system.Orm.{Error, http}

abbrev pub card_forbidden : Error
card_forbidden = http 403 "Card does not belong to the authenticated user."

abbrev pub account_missing : Error
account_missing = http 404 "User account not found."

abbrev pub original_missing : Error
original_missing = http 404 "Original transaction not found."

abbrev pub insufficient_funds : Error
insufficient_funds = http 402 "Insufficient funds."

abbrev pub transaction_missing : Error
transaction_missing = http 404 "Transaction not found."

abbrev pub already_processing : Error
already_processing = http 409 "Transaction is already being processed."

abbrev pub origin_missing : Error
origin_missing = http 404 "Origin account not found."

abbrev pub access_denied : Error
access_denied = http 403 "Access denied."
