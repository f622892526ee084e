-- ===== src/Types/Dashboard.antt =====
-- frontend/lib/types.ts: the dashboard.
use fintech_innova_hack.Prelude.{Bool, Option, List}
use fintech_innova_hack.Prelude.Text.{Text}
use fintech_innova_hack.Prelude.Int.{ℤ}
use fintech_innova_hack.Types.Scalars.{Money, Ppm, Timestamp}

pub record DashboardSummaryAgents : Type 0 where
  pub total : ℤ
  pub active : ℤ
  pub frozen : ℤ
  pub revoked : ℤ

pub record DashboardSummaryCredit : Type 0 where
  pub approved_minor : Money
  pub utilized_minor : Money
  pub repaid_minor : Money
  pub outstanding_minor : Money
  pub at_risk_minor : Money
  pub recovered_minor : Money
  pub loss_minor : Money
  pub fees_minor : Money
  pub released_to_owner_minor : Money

pub record DashboardSummaryVaults : Type 0 where
  pub total : ℤ
  pub active : ℤ
  pub frozen : ℤ
  pub closed : ℤ
  pub defaulted : ℤ

pub record DashboardSummaryApplications : Type 0 where
  pub total : ℤ
  pub approved : ℤ
  pub human_review : ℤ
  pub rejected : ℤ
  pub in_flight : ℤ
  pub requested_minor : Money
  pub approved_limit_minor : Money

pub record DashboardSummaryTransactions : Type 0 where
  pub proposed : ℤ
  pub executed : ℤ
  pub blocked : ℤ
  pub executed_value_minor : Money
  pub blocked_value_minor : Money

pub record DashboardSummaryRepayments : Type 0 where
  pub count : ℤ
  pub settled_vaults : ℤ
  pub terminal_vaults : ℤ
  pub repayment_rate_ppm : Option Ppm

pub record DashboardSummaryRisk : Type 0 where
  pub total_events : ℤ
  pub critical : ℤ
  pub high : ℤ
  pub warn : ℤ

pub record DashboardSummaryIntegrity : Type 0 where
  pub ledger_balanced : Bool
  pub ledger_imbalance : List (Text × ℤ)
  pub audit_chain_intact : Bool
  pub first_broken_seq : Option ℤ

pub record DashboardSummary : Type 0 where
  pub agents : DashboardSummaryAgents
  pub credit : DashboardSummaryCredit
  pub vaults : DashboardSummaryVaults
  pub applications : DashboardSummaryApplications
  pub transactions : DashboardSummaryTransactions
  pub repayments : DashboardSummaryRepayments
  pub risk : DashboardSummaryRisk
  pub integrity : DashboardSummaryIntegrity
  pub generated_at : Timestamp

pub record ExposurePoint : Type 0 where
  pub date : Text
  pub approved_minor : Money
  pub utilized_minor : Money
  pub repaid_minor : Money
