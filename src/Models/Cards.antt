-- ===== src/Models/Cards.antt =====
-- backend/app/models/card.py
use bank_transaction_system.Base.{ℕ, String}

pub data CardType : Type 0 where
  debit credit : CardType

pub record Card : Type 0 where
  pub id : ℕ
  pub account_id : ℕ
  pub card_type : CardType
  pub number_hmac : String
  pub number_last4 : String
  pub expiration_month : ℕ
  pub expiration_year : ℕ
  pub created_at : ℕ
