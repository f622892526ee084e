-- ===== src/Types/Vaults.antt =====
-- frontend/lib/types.ts: vaults and their repayments.
use fintech_innova_hack.Prelude.{Option, List}
use fintech_innova_hack.Prelude.Text.{Text}
use fintech_innova_hack.Prelude.Int.{ℤ}
use fintech_innova_hack.Types.Scalars.{Money, Timestamp}
use fintech_innova_hack.Types.Events.{AuditEventRef, RiskEvent}
use fintech_innova_hack.Types.Credit.{RevenueMandate}

pub record VaultSummary : Type 0 where
  pub vault_id : Text
  pub agent_id : Text
  pub agent_name : Text
  pub task_id : Text
  pub task_title : Text
  pub application_id : Text
  pub status : Text
  pub currency : Text
  pub total_limit_minor : Money
  pub spent_minor : Money
  pub remaining_minor : Money
  pub per_transaction_limit_minor : Money
  pub daily_limit_minor : Money
  pub principal_outstanding_minor : Money
  pub fee_due_minor : Money
  pub reserve_drawn_minor : Money
  pub transaction_count : ℤ
  pub max_transactions : ℤ
  pub frozen_reason : Option Text
  pub expires_at : Option Timestamp
  pub created_at : Option Timestamp
  pub updated_at : Option Timestamp

pub record WaterfallAllocation : Type 0 where
  pub step : Text
  pub amount_minor : Money

pub record RepaymentRecord : Type 0 where
  pub repayment_id : Text
  pub kind_ : Text
  pub allocations : List WaterfallAllocation
  pub principal_minor : Money
  pub fee_minor : Money
  pub reserve_minor : Money
  pub owner_minor : Money
  pub loss_minor : Money
  pub journal_transaction_id : Option Text
  pub created_at : Option Timestamp

pub record VaultDetailAllowlist : Type 0 where
  pub vendor_id : Text
  pub vendor_name : Text
  pub category : Text
  pub purpose_codes : List Text
  pub per_vendor_cap_minor : Option Money

pub record VaultDetailTransactions : Type 0 where
  pub proposal_id : Text
  pub vendor_id : Text
  pub vendor_name : Text
  pub amount_minor : Money
  pub currency : Text
  pub purpose_code : Text
  pub status : Text
  pub reason_codes : List Text
  pub transaction_id : Option Text
  pub journal_transaction_id : Option Text
  pub created_at : Option Timestamp
  pub executed_at : Option Timestamp

pub record VaultDetailRevenueEvents : Type 0 where
  pub amount_minor : Money
  pub created_at : Option Timestamp

-- `base` holds the fields of the type that it extends.
pub record VaultDetail : Type 0 where
  pub base : VaultSummary
  pub agent_status : Text
  pub allowlist : List VaultDetailAllowlist
  pub transactions : List VaultDetailTransactions
  pub revenue_events : List VaultDetailRevenueEvents
  pub repayments : List RepaymentRecord
  pub revenue_mandate : Option RevenueMandate
  pub risk_events : List RiskEvent
  pub audit_events : List AuditEventRef
