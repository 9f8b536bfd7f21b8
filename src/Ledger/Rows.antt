-- ===== src/Ledger/Rows.antt =====
-- The ledger's rows (packages/payops_core/data/models.py) and the view that a transfer returns
-- (packages/payops_core/models/schemas.py). Amounts are signed integers of cents; a time is a
-- number. Rows of accounts carry their whole state, so an object is the row that it stands for.
use payops_intelligence.Prelude.{ℕ, String, Option, List, ℤ}

pub record LedgerAccount : Type 0 where
  pub account_id : String
  pub merchant_id : Option String
  pub kind : String
  pub currency : String
  pub balance_cents : ℤ
  pub version : ℕ
  pub status : String
  pub created_at : ℕ
  pub updated_at : ℕ

pub record LedgerTransfer : Type 0 where
  pub transfer_id : String
  pub from_account_id : String
  pub to_account_id : String
  pub amount_cents : ℤ
  pub currency : String
  pub status : String
  pub isolation_level : String
  pub fail_at : Option String
  pub failure_point : Option String
  pub before_from_cents : ℤ
  pub before_to_cents : ℤ
  pub after_from_cents : ℤ
  pub after_to_cents : ℤ
  pub created_at : ℕ

pub record LedgerEntry : Type 0 where
  pub entry_id : String
  pub transfer_id : String
  pub account_id : String
  pub direction : String
  pub amount_cents : ℤ
  pub created_at : ℕ

pub record LedgerAuditEvent : Type 0 where
  pub audit_id : String
  pub transfer_id : String
  pub event : String
  pub detail : String
  pub created_at : ℕ

pub record TransferOperation : Type 0 where
  pub name : String
  pub state : String
  pub account_id : Option String
  pub delta_cents : Option ℤ

pub record TransferAuditEvent : Type 0 where
  pub audit_id : String
  pub event : String
  pub detail : String
  pub created_at : ℕ

-- The dictionaries `{"from": …, "to": …}` of a result.
pub record BalancePair : Type 0 where
  pub source : ℤ
  pub dest : ℤ

pub record TransferResult : Type 0 where
  pub transfer_id : String
  pub status : String
  pub current_state : String
  pub from_account_id : String
  pub to_account_id : String
  pub amount_cents : ℤ
  pub isolation_level : String
  pub isolation_reason : String
  pub fail_at : Option String
  pub failure_point : Option String
  pub before_balance : BalancePair
  pub after_balance : BalancePair
  pub operations : List TransferOperation
  pub commit_or_rollback : String
  pub audit_events : List TransferAuditEvent
  pub notes : String

pub record LedgerAccountView : Type 0 where
  pub account_id : String
  pub merchant_id : Option String
  pub kind : String
  pub currency : String
  pub balance_cents : ℤ
  pub version : ℕ
  pub status : String
