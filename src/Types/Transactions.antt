-- ===== src/Types/Transactions.antt =====
-- frontend/lib/types.ts: transactions and repayments across vaults.
use fintech_innova_hack.Prelude.{Bool, Option, List}
use fintech_innova_hack.Prelude.Text.{Text}
use fintech_innova_hack.Types.Scalars.{Money, Timestamp}
use fintech_innova_hack.Types.Events.{AuditEventRef}
use fintech_innova_hack.Types.Credit.{PolicyDecisionRecord}
use fintech_innova_hack.Types.Vaults.{WaterfallAllocation}

pub record TransactionSummary : Type 0 where
  pub proposal_id : Text
  pub transaction_id : Option Text
  pub vault_id : Text
  pub agent_id : Text
  pub agent_name : Text
  pub vendor_id : Text
  pub vendor_name : Text
  pub vendor_known : Bool
  pub amount_minor : Money
  pub currency : Text
  pub purpose_code : Text
  pub type_ : Text
  pub policy_result : Text
  pub status : Text
  pub reason_codes : List Text
  pub journal_transaction_id : Option Text
  pub created_at : Option Timestamp
  pub decided_at : Option Timestamp
  pub executed_at : Option Timestamp

-- `base` holds the fields of the type that it extends.
pub record TransactionDetail : Type 0 where
  pub base : TransactionSummary
  pub idempotency_key_present : Bool
  pub policy_decisions : List PolicyDecisionRecord
  pub audit_events : List AuditEventRef

pub record RepaymentRow : Type 0 where
  pub repayment_id : Text
  pub vault_id : Text
  pub agent_id : Text
  pub agent_name : Text
  pub task_title : Text
  pub kind_ : Text
  pub allocations : List WaterfallAllocation
  pub revenue_minor : Money
  pub principal_minor : Money
  pub fee_minor : Money
  pub reserve_minor : Money
  pub owner_minor : Money
  pub loss_minor : Money
  pub vault_status : Text
  pub outstanding_minor : Money
  pub journal_transaction_id : Option Text
  pub status : Text
  pub created_at : Option Timestamp
