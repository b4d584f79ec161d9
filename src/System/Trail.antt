-- ===== src/System/Trail.antt =====
-- The tables that the program only appends to: users, cards, the audit log, the history of the
-- sessions and the archive of the transactions.
use bank_transaction_system.Base.{
  Bool, ◌≡◌, refl, sym, ◌∙◌, List, [], ◌∷◌, ◌++◌, Bool-cases, inl, inr,
}
use mathlib.Core.List.{append_assoc, append-nil}
use bank_transaction_system.Base.Rows.{exists_row}
use bank_transaction_system.Base.Int.{◌-ℤ◌, ◌+ℤ◌}
use bank_transaction_system.Models.{Account, Transaction, UserSession, Db}
use bank_transaction_system.Platform.{Platform}
use bank_transaction_system.Orm.{ok, Orm}
use bank_transaction_system.Orm.Relates.{IsPreorder}
use bank_transaction_system.Crud.Accounts.{new_account}
use bank_transaction_system.Crud.Audit.{upsert_session, has_user}
use bank_transaction_system.Crud.Written.{
  insert_account_written, store_balance_written, insert_card_written, insert_transaction_written,
  set_status_written,
}
use bank_transaction_system.Services.Transactions.Writes.{Writes}
use bank_transaction_system.Integrity.Registered.{insert_user_written}
use bank_transaction_system.Integrity.Logged.{
  insert_audit_log_checked, insert_history_checked, upsert_renewed, upsert_inserted,
}
use bank_transaction_system.Integrity.Archived.{archive_written}
use bank_transaction_system.System.Statements.{Respects, Credits, Writes-Payments}
use bank_transaction_system.System.Requests.{Request, Steps}
use bank_transaction_system.System.Runs.{Steps-related}

-- The old rows are there, unchanged and in their places, before any new ones.
abbrev pub Appends : {A : Type 0} → List A → List A → Type 0
Appends {A} old rows = (more : List A) × (rows ≡ old ++ more)

pub record KeepsTrail (d d' : Db) : Type 0 where
  pub users : Appends d.users d'.users
  pub cards : Appends d.cards d'.cards
  pub audit_logs : Appends d.audit_logs d'.audit_logs
  pub session_history : Appends d.session_history d'.session_history
  pub transaction_history : Appends d.transaction_history d'.transaction_history

module _ {A : Type 0} where
  Appends-refl : (rows : List A) → Appends rows rows
  Appends-refl rows = ([], sym (append-nil rows))

  Appends-more : (rows more : List A) → Appends rows (rows ++ more)
  Appends-more rows more = (more, refl)

  Appends-trans : (a b c : List A) → Appends a b → Appends b c → Appends a c
  Appends-trans a b c (more, h) (rest, k) = (more ++ rest, k ∙ (rw h (append_assoc a more rest)))

KeepsTrail-refl : (d : Db) → KeepsTrail d d
KeepsTrail-refl d = record {
  users = Appends-refl d.users;
  cards = Appends-refl d.cards;
  audit_logs = Appends-refl d.audit_logs;
  session_history = Appends-refl d.session_history;
  transaction_history = Appends-refl d.transaction_history;
}

KeepsTrail-trans : (c d e : Db) → KeepsTrail c d → KeepsTrail d e → KeepsTrail c e
KeepsTrail-trans c d e h k = record {
  users = Appends-trans c.users d.users e.users h.users k.users;
  cards = Appends-trans c.cards d.cards e.cards h.cards k.cards;
  audit_logs = Appends-trans c.audit_logs d.audit_logs e.audit_logs h.audit_logs k.audit_logs;
  session_history =
      Appends-trans c.session_history d.session_history e.session_history h.session_history
        k.session_history;
  transaction_history =
      Appends-trans c.transaction_history d.transaction_history e.transaction_history
        h.transaction_history k.transaction_history;
}

KeepsTrail-pre : IsPreorder KeepsTrail
KeepsTrail-pre = record {
  reflexive = KeepsTrail-refl;
  transitive = λ {c} {d} {e}. KeepsTrail-trans c d e;
}

-- Statements on the other tables leave all five.
rewritten :
    (d : Db) (accounts : List Account) (transactions : List Transaction)
    (sessions : List UserSession)
    → KeepsTrail d
        (record d { accounts = accounts; transactions = transactions; sessions = sessions })
rewritten d accounts transactions sessions = record {
  users = Appends-refl d.users;
  cards = Appends-refl d.cards;
  audit_logs = Appends-refl d.audit_logs;
  session_history = Appends-refl d.session_history;
  transaction_history = Appends-refl d.transaction_history;
}

upsert-KeepsTrail :
    (n : UserSession) (u : Unit {0}) (d d' : Db) → upsert_session n d ≡ ok (u, d') → KeepsTrail d d'
upsert-KeepsTrail n u d d' e = elim (Bool-cases (exists_row (has_user n.user_id) d.sessions)) [
  | inl had ↦ rw (upsert_renewed n u d d' had e) (rewritten d d.accounts d.transactions _)
  | inr none_had ↦
      rw ((upsert_inserted n u d d' none_had e).2) (rewritten d d.accounts d.transactions _)
]

KeepsTrail-Writes : Writes KeepsTrail
KeepsTrail-Writes = record {
  pre = KeepsTrail-pre;
  inserted_card = λ c a d d' e. rw ((insert_card_written c a d d' e).1) (record {
    users = Appends-refl d.users;
    cards = Appends-more d.cards (c ∷ []);
    audit_logs = Appends-refl d.audit_logs;
    session_history = Appends-refl d.session_history;
    transaction_history = Appends-refl d.transaction_history;
  });
  inserted = λ t a d d' e.
      rw ((insert_transaction_written t a d d' e).1) (rewritten d d.accounts _ d.sessions);
  deducted = λ a x enough u d d' e.
      rw ((store_balance_written a.id (a.balance -ℤ x) u d d' e).1)
        (rewritten d _ d.transactions d.sessions);
}

KeepsTrail-Respects : Respects KeepsTrail
KeepsTrail-Respects = record {
  pre = KeepsTrail-pre;
  payments = Writes-Payments KeepsTrail-Writes (λ i new expected follows b d d' e.
      rw ((set_status_written i new expected b d d' e).1) (rewritten d d.accounts _ d.sessions));
  inserted_user = λ u a d d' e. rw ((insert_user_written u a d d' e).1) (record {
    users = Appends-more d.users (u ∷ []);
    cards = Appends-refl d.cards;
    audit_logs = Appends-refl d.audit_logs;
    session_history = Appends-refl d.session_history;
    transaction_history = Appends-refl d.transaction_history;
  });
  opened = λ env i a d d' e.
      rw ((insert_account_written (new_account env i) a d d' e).1)
        (rewritten d _ d.transactions d.sessions);
  logged = λ x a d d' e. rw ((insert_audit_log_checked x a d d' e).2) (record {
    users = Appends-refl d.users;
    cards = Appends-refl d.cards;
    audit_logs = Appends-more d.audit_logs (x ∷ []);
    session_history = Appends-refl d.session_history;
    transaction_history = Appends-refl d.transaction_history;
  });
  upserted = upsert-KeepsTrail;
  recorded = λ x a d d' e. rw ((insert_history_checked x a d d' e).2) (record {
    users = Appends-refl d.users;
    cards = Appends-refl d.cards;
    audit_logs = Appends-refl d.audit_logs;
    session_history = Appends-more d.session_history (x ∷ []);
    transaction_history = Appends-refl d.transaction_history;
  });
  deleted = λ row d. rewritten d d.accounts d.transactions _;
  archived = λ server n d d' e. rw ((archive_written server n d d' e).1) (record {
    users = Appends-refl d.users;
    cards = Appends-refl d.cards;
    audit_logs = Appends-refl d.audit_logs;
    session_history = Appends-refl d.session_history;
    transaction_history = Appends-more d.transaction_history _;
  });
}

KeepsTrail-Credits : Credits KeepsTrail
KeepsTrail-Credits = record {
  credited = λ a x positive u d d' one e.
      rw ((store_balance_written a.id (a.balance +ℤ x) u d d' e).1)
        (rewritten d _ d.transactions d.sessions);
}

module _ ⦃orm : Orm⦄ ⦃p : Platform⦄ where
  -- Over any run of requests and tasks, with runs of requests that other sessions commit before a
  -- user's or a card's row is inserted or after that insertion is refused, the users, the cards,
  -- the audit log, the history of the sessions and the archive are only appended to: every old row
  -- stays as it is, in its place.
  pub run-KeepsTrail : (allowed : Request → Bool) (d d' : Db) → Steps allowed d d' → KeepsTrail d d'
  run-KeepsTrail allowed d d' run =
      Steps-related KeepsTrail-Respects (λ r may deposit. KeepsTrail-Credits) run
