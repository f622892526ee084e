-- ===== src/Types/Agents.antt =====
-- frontend/lib/types.ts: agents, passports and tasks.
use fintech_innova_hack.Prelude.{Bool, Option, List}
use fintech_innova_hack.Prelude.Text.{Text}
use fintech_innova_hack.Prelude.Int.{ℤ}
use fintech_innova_hack.Types.Scalars.{Money, Ppm, Timestamp}
use fintech_innova_hack.Types.Events.{AuditEventRef, RiskEvent}

pub record MeUser : Type 0 where
  pub id : Text
  pub email : Text
  pub role : Text

pub record Me : Type 0 where
  pub organization_id : Text
  pub name : Text
  pub status : Text
  pub created_at : Option Timestamp
  pub user : MeUser

pub record AgentFeatures : Type 0 where
  pub tasks_total : ℤ
  pub tasks_succeeded : ℤ
  pub task_success_rate_ppm : Ppm
  pub repayments_total : ℤ
  pub repaid_in_full : ℤ
  pub repayment_rate_ppm : Ppm
  pub total_defaulted_minor : Money
  pub current_outstanding_minor : Money
  pub policy_violation_count : ℤ
  pub blocked_spend_attempts : ℤ
  pub identity_age_days : ℤ
  pub is_first_credit : Bool

pub data RiskTier : Type 0 where
  low medium high : RiskTier

pub record AgentSummary : Type 0 where
  pub agent_id : Text
  pub name : Text
  pub status : Text
  pub model_provider : Text
  pub model_name : Text
  pub model_version_hash : Text
  pub owner_user_id : Text
  pub owner_email : Text
  pub trust_score : ℤ
  pub risk_tier : RiskTier
  pub task_success_rate_ppm : Ppm
  pub repayment_rate_ppm : Ppm
  pub tasks_total : ℤ
  pub policy_violation_count : ℤ
  pub blocked_spend_attempts : ℤ
  pub active_exposure_minor : Money
  pub vault_count : ℤ
  pub has_passport : Bool
  pub passport_expires_at : Option Timestamp
  pub created_at : Option Timestamp
  pub last_activity_at : Option Timestamp

pub record PassportView : Type 0 where
  pub passport_id : Text
  pub issuer : Text
  pub key_version : Text
  pub purpose : Text
  pub permitted_task_categories : List Text
  pub max_borrowing_authority_minor : Money
  pub max_transaction_value_minor : Money
  pub approved_vendor_ids : List Text
  pub audience : Text
  pub valid_from : Option Timestamp
  pub expires_at : Option Timestamp
  pub signature_verified : Bool
  pub reason_codes : List Text

pub record AgentProfileCreditHistory : Type 0 where
  pub application_id : Text
  pub task_id : Text
  pub status : Text
  pub requested_minor : Money
  pub approved_limit_minor : Option Money
  pub decision : Option Text
  pub created_at : Option Timestamp

pub record AgentProfileVaults : Type 0 where
  pub vault_id : Text
  pub status : Text
  pub total_limit_minor : Money
  pub spent_minor : Money
  pub principal_outstanding_minor : Money
  pub created_at : Option Timestamp

pub record AgentProfileSpendingBehaviourVendorDistribution : Type 0 where
  pub vendor_id : Text
  pub count : ℤ
  pub amount_minor : Money

pub record AgentProfileSpendingBehaviourPolicyViolations : Type 0 where
  pub proposal_id : Text
  pub reason_codes : List Text
  pub created_at : Option Timestamp

pub record AgentProfileSpendingBehaviour : Type 0 where
  pub vendor_distribution : List AgentProfileSpendingBehaviourVendorDistribution
  pub executed_count : ℤ
  pub blocked_count : ℤ
  pub policy_violations : List AgentProfileSpendingBehaviourPolicyViolations

pub record AgentProfileRepayments : Type 0 where
  pub repayment_id : Text
  pub vault_id : Text
  pub kind_ : Text
  pub principal_minor : Money
  pub fee_minor : Money
  pub owner_minor : Money
  pub loss_minor : Money
  pub created_at : Option Timestamp

pub record TaskSummary : Type 0 where
  pub task_id : Text
  pub agent_id : Option Text
  pub agent_name : Option Text
  pub title : Text
  pub category : Text
  pub status : Text
  pub currency : Option Text
  pub expected_revenue_minor : Money
  pub expected_cost_minor : Money
  pub expected_margin_minor : Money
  pub created_at : Option Timestamp

-- `base` holds the fields of the type that it extends.
pub record AgentProfile : Type 0 where
  pub base : AgentSummary
  pub features : AgentFeatures
  pub passport : Option PassportView
  pub tasks : List TaskSummary
  pub credit_history : List AgentProfileCreditHistory
  pub vaults : List AgentProfileVaults
  pub spending_behaviour : AgentProfileSpendingBehaviour
  pub repayments : List AgentProfileRepayments
  pub risk_events : List RiskEvent
  pub audit_events : List AuditEventRef

pub record PassportVerification : Type 0 where
  pub agent_id : Text
  pub valid : Bool
  pub reason_codes : List Text
