-- ===== src/Services/Queue.antt =====
-- backend/app/services/sqs_service.py
use bank_transaction_system.Base.{[], ◌∷◌, ◌++◌, if◌then◌else◌}
use bank_transaction_system.Models.{Transaction, Message}
use bank_transaction_system.Orm.{ok, err, sqs_error, Action, Env}

abbrev pub message_of : Transaction → Message
message_of t = record {
  transaction_id = t.id;
  origin_account = t.origin_account;
  destination_account = t.destination_account;
  amount = t.amount;
  method = t.method;
}

-- A message is sent once SQS accepts it; if it does not, `send_message` raises.
unfoldable pub publish_international_payment : Env → Transaction → Action (Unit {0})
publish_international_payment env t s =
    if env.sqs_accepts (message_of t)
    then (ok tt, record s { sent = s.sent ++ (message_of t ∷ []) })
    else (err sqs_error, s)
