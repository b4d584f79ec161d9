-- ===== src/Services/Transactions/Deferred.antt =====
-- The branches of `create_transaction` (backend/app/services/transaction_service.py) that do not
-- settle the payment: scheduled and international payments.
use bank_transaction_system.Base.{◌≡◌, ◌∙◌, true, false, [], ◌∷◌, ◌++◌}
use bank_transaction_system.Models.{User, Card, Transaction, TransactionType, TransactionStatus}
use bank_transaction_system.Schemas.{TransactionCreate}
use bank_transaction_system.Platform.{Platform}
use bank_transaction_system.Orm.{ok, err, sqs_error, Session, Env, Orm}
use bank_transaction_system.Crud.Transactions as Rows
use bank_transaction_system.Crud.Transactions.{insert_transaction, new_transaction}
use bank_transaction_system.Services.Queue.{publish_international_payment, message_of}
use bank_transaction_system.Services.Cards.{resolve_card}
use bank_transaction_system.Services.Transactions.{
  Routed, after_commit, row_of, is_future, schedule, queue_international, branch, route,
  create_transaction,
}
use bank_transaction_system.Services.Transactions.Postings.{ReversalKnown, added, Insertable}
use bank_transaction_system.Services.Transactions.Outcomes.{
  check_reversal_known, route_international, created_ok, created_err, committed,
}

module _ ⦃orm : Orm⦄ ⦃p : Platform⦄ (env : Env) (payload : TransactionCreate) (user : User)
    (s t : Session) (card : Card) (resolved : resolve_card env payload.card user s ≡ (ok card, t))
    (idle : t.in_transaction ≡ false) (known : ReversalKnown payload.reversal_of t.db) where
  -- The rows of the branches that do not settle at once.
  abbrev pub scheduled_row : Transaction
  scheduled_row = new_transaction env (record (row_of payload card TransactionStatus.scheduled) {
    scheduled_for = payload.scheduled_for;
  })

  abbrev pub pending_row : Transaction
  pending_row = new_transaction env (row_of payload card TransactionStatus.pending)

  -- A payment for a future time, of a resolved card and with a known reversal target, whose row
  -- the table admits, is SCHEDULED with its time: no balance changes and nothing is sent.
  pub future_is_scheduled :
      is_future payload.scheduled_for env.now ≡ true
      → Insertable scheduled_row t.db
      → create_transaction env payload user s ≡ (
        ok scheduled_row,
        committed env payload user s t card resolved idle known scheduled_row t.db,
      )
  unfolding after_commit route branch schedule
  future_is_scheduled now insertable =
      created_ok env payload user s t card resolved idle known (Routed.returned scheduled_row)
        (record t { db = added scheduled_row t.db; in_transaction = true })
        (rw (check_reversal_known payload.reversal_of t known, now)
          (simp (Rows.create_lem, insertable)))

  -- An international payment for now, of a resolved card and with a known reversal target, whose
  -- row the table admits and whose message SQS accepts, is PENDING, and one message of it is sent.
  pub international_is_queued :
      is_future payload.scheduled_for env.now ≡ false
      → payload.type ≡ TransactionType.international
      → Insertable pending_row t.db
      → env.sqs_accepts (message_of pending_row) ≡ true
      → create_transaction env payload user s ≡ (
        ok pending_row,
        record (committed env payload user s t card resolved idle known pending_row t.db) {
          sent = t.sent ++ (message_of pending_row ∷ []);
        },
      )
  unfolding after_commit queue_international publish_international_payment
  international_is_queued now international insertable accepted =
      created_ok env payload user s t card resolved idle known (Routed.returned pending_row)
        (record t {
          db = added pending_row t.db;
          in_transaction = true;
          sent = t.sent ++ (message_of pending_row ∷ []);
        })
        (route_international env payload card t known now international
          ∙ simp (Rows.create_lem, insertable, accepted))

  -- An international payment for now, of a resolved card and with a known reversal target, whose
  -- row the table admits: if SQS refuses the message the request fails and the row is rolled back.
  pub refused_message_rolls_back :
      is_future payload.scheduled_for env.now ≡ false
      → payload.type ≡ TransactionType.international
      → Insertable pending_row t.db
      → env.sqs_accepts (message_of pending_row) ≡ false
      → create_transaction env payload user s ≡ (err sqs_error, t)
  unfolding queue_international publish_international_payment
  refused_message_rolls_back now international insertable refused =
      created_err env payload user s t card resolved idle known sqs_error
        (record t { db = added pending_row t.db; in_transaction = true })
        (route_international env payload card t known now international
          ∙ simp (Rows.create_lem, insertable, refused))
      ∙ rw (← idle)
