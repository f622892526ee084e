-- ===== src/Types/Intelligence.antt =====
-- frontend/lib/types.ts: system intelligence.
use fintech_innova_hack.Prelude.{Bool, Option, List}
use fintech_innova_hack.Prelude.Text.{Text}
use fintech_innova_hack.Prelude.Int.{ℤ}
use fintech_innova_hack.Types.Scalars.{Timestamp}
use fintech_innova_hack.Types.Metrics.{MetricEnvelope, PipelineStage}

pub data SystemIntelligenceWindow : Type 0 where
  last_1h last_24h last_7d last_30d : SystemIntelligenceWindow

pub record AssuranceComponents : Type 0 where
  pub identity_verification_accuracy : MetricEnvelope
  pub underwriting_decision_agreement : MetricEnvelope
  pub evidence_grounding_rate : MetricEnvelope
  pub hallucination_containment_rate : MetricEnvelope
  pub adversarial_policy_block_rate : MetricEnvelope
  pub repayment_invariant_pass_rate : MetricEnvelope

pub data ServiceHealthComponent : Type 0 where
  api database opa model_runtime : ServiceHealthComponent

pub data ServiceHealthStatus : Type 0 where
  healthy degraded down idle not_connected : ServiceHealthStatus

pub record ServiceHealthEntry : Type 0 where
  pub component : ServiceHealthComponent
  pub status : ServiceHealthStatus
  pub detail : Option Text
  pub checked_at : Timestamp

pub record FailClosedEvent : Type 0 where
  pub at_ : Timestamp
  pub component : Text
  pub action : Text
  pub detail : Text

pub record PolicyDenialCount : Type 0 where
  pub code : Text
  pub count : ℤ

pub record SystemIntelligenceAssurance : Type 0 where
  pub score : MetricEnvelope
  pub components : AssuranceComponents
  pub last_evaluation_run_at : Option Timestamp

pub record SystemIntelligenceSummary : Type 0 where
  pub requests_processed : MetricEnvelope
  pub approvals : MetricEnvelope
  pub controlled_rejections : MetricEnvelope
  pub human_reviews : MetricEnvelope
  pub true_errors : MetricEnvelope
  pub pipeline_success_rate : MetricEnvelope
  pub prevented_exposure_minor : MetricEnvelope
  pub blocked_attempts : MetricEnvelope

pub record SystemIntelligenceAiQuality : Type 0 where
  pub structured_output_validity : MetricEnvelope
  pub verifier_disagreement_rate : MetricEnvelope
  pub model_fallback_rate : MetricEnvelope
  pub insufficient_evidence_responses : MetricEnvelope

pub record SystemIntelligenceModels : Type 0 where
  pub provider : Text
  pub analyst_model : Option Text
  pub critic_model : Option Text
  pub external_llm_api_calls : MetricEnvelope

pub record SystemIntelligenceCreditEngine : Type 0 where
  pub decision_version : Text
  pub scorecard_version : Text
  pub decisions : MetricEnvelope
  pub auto_approved : MetricEnvelope
  pub auto_rejected : MetricEnvelope
  pub referred_to_human : MetricEnvelope

pub record SystemIntelligenceFinancialSafety : Type 0 where
  pub policy_denials_by_code : List PolicyDenialCount
  pub frozen_vaults : MetricEnvelope
  pub revoked_agents : MetricEnvelope
  pub prevented_exposure_minor : MetricEnvelope

pub record SystemIntelligenceRepayment : Type 0 where
  pub waterfall_runs : MetricEnvelope
  pub invariant_checked : MetricEnvelope
  pub invariant_passed : MetricEnvelope
  pub ledger_balanced : Bool
  pub audit_chain_intact : Bool

pub record SystemIntelligenceInfrastructure : Type 0 where
  pub billing_connected : Bool
  pub note_ : Text

pub record SystemIntelligence : Type 0 where
  pub generated_at : Timestamp
  pub window : SystemIntelligenceWindow
  pub assurance : SystemIntelligenceAssurance
  pub summary : SystemIntelligenceSummary
  pub pipeline : List PipelineStage
  pub ai_quality : SystemIntelligenceAiQuality
  pub models : SystemIntelligenceModels
  pub credit_engine : SystemIntelligenceCreditEngine
  pub financial_safety : SystemIntelligenceFinancialSafety
  pub repayment : SystemIntelligenceRepayment
  pub service_health : List ServiceHealthEntry
  pub fail_closed_events : List FailClosedEvent
  pub infrastructure : SystemIntelligenceInfrastructure
