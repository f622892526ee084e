-- ===== src/Types/Credit.antt =====
-- frontend/lib/types.ts: credit applications and evidence.
use fintech_innova_hack.Prelude.{Bool, Option, List}
use fintech_innova_hack.Prelude.Text.{Text}
use fintech_innova_hack.Prelude.Int.{ℤ}
use fintech_innova_hack.Types.Scalars.{Money, Ppm, Timestamp}

pub record CreditApplicationSummaryHumanReview : Type 0 where
  pub action : Text
  pub amount_minor : Option Money
  pub notes : Option Text
  pub created_at : Option Timestamp

pub record CreditApplicationSummary : Type 0 where
  pub application_id : Text
  pub agent_id : Text
  pub agent_name : Text
  pub task_id : Text
  pub task_title : Text
  pub status : Text
  pub currency : Text
  pub requested_minor : Money
  pub approved_limit_minor : Option Money
  pub decision : Option Text
  pub reason_codes : List Text
  pub receipt_hash : Option Text
  pub expected_revenue_minor : Money
  pub expected_cost_minor : Money
  pub expected_margin_minor : Money
  pub requested_duration_hours : ℤ
  pub pd_ppm : Option Ppm
  pub expected_loss_minor : Option Money
  pub human_review : Option CreditApplicationSummaryHumanReview
  pub vault_id : Option Text
  pub created_at : Option Timestamp
  pub updated_at : Option Timestamp

pub record EvidenceItem : Type 0 where
  pub evidence_id : Text
  pub evidence_type : Text
  pub source : Text
  pub content_hash : Text
  pub content_text : Text
  pub created_at : Option Timestamp

-- `base` holds the fields of the type that it extends.
pub record StoredEvidence : Type 0 where
  pub base : EvidenceItem
  pub organization_id : Text
  pub task_id : Text

-- `base` holds the fields of the type that it extends.
pub record EvidenceReceipt : Type 0 where
  pub base : StoredEvidence
  pub redactions : List Text
  pub injection_signature : Bool

pub record PolicyDecisionRecord : Type 0 where
  pub engine : Text
  pub allow : Bool
  pub deny : List Text
  pub policy_version : Option Text
  pub created_at : Option Timestamp

pub record RevenueMandate : Type 0 where
  pub mandate_id : Text
  pub status : Text
  pub locked : Bool
  pub reserve_cap_minor : Money
  pub destination_account_code : Text
