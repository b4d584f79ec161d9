-- ===== src/Models/Audit.antt =====
-- backend/app/models/audit_log.py
use bank_transaction_system.Base.{ℕ, String, Option}

pub data AuditLogAction : Type 0 where
  login logout login_failed : AuditLogAction

pub data SessionEvent : Type 0 where
  login logout expired : SessionEvent

pub record UserSession : Type 0 where
  pub id : ℕ
  pub user_id : ℕ
  pub token_hash : String
  pub ip_address : Option String
  pub created_at : ℕ
  pub expires_at : ℕ

pub record AuditLog : Type 0 where
  pub id : ℕ
  pub user_id : ℕ
  pub action : AuditLogAction
  pub ip_address : Option String
  pub timestamp : ℕ

pub record SessionHistory : Type 0 where
  pub id : ℕ
  pub user_id : ℕ
  pub event : SessionEvent
  pub token_hash : String
  pub ip_address : Option String
  pub occurred_at : ℕ
