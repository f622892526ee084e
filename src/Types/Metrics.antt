-- ===== src/Types/Metrics.antt =====
-- frontend/lib/types.ts: metrics and the pipeline.
use fintech_innova_hack.Prelude.{Option, List, [], ◌∷◌}
use fintech_innova_hack.Prelude.Text.{Text, codes}
use fintech_innova_hack.Prelude.Int.{ℤ}
use fintech_innova_hack.Types.Scalars.{Timestamp}

pub data MetricUnit : Type 0 where
  ppm minor count ms : MetricUnit

pub data MetricStatus : Type 0 where
  ok not_evaluated insufficient_sample not_connected unavailable : MetricStatus

pub record MetricEnvelope : Type 0 where
  pub value : Option ℤ
  pub unit : MetricUnit
  pub sample_size : Option ℤ
  pub status : MetricStatus

pub data PipelineStageName : Type 0 where
  request_received schema_validation passport_verification evidence_retrieval task_analyst
        feature_calculation underwriting_analyst credit_risk_model independent_risk_critic
        policy_engine human_review vault_creation spend_monitoring revenue_collection
        repayment_waterfall audit_finalization :
      PipelineStageName

abbrev pub pipeline_stage_order : List PipelineStageName
pipeline_stage_order =
    request_received ∷ schema_validation ∷ passport_verification ∷ evidence_retrieval ∷ task_analyst
    ∷ feature_calculation ∷ underwriting_analyst ∷ credit_risk_model ∷ independent_risk_critic
    ∷ policy_engine ∷ human_review ∷ vault_creation ∷ spend_monitoring ∷ revenue_collection
    ∷ repayment_waterfall ∷ audit_finalization ∷ []

-- The text that stands for it.
unfoldable pub stage_text : PipelineStageName → Text
stage_text request_received = codes "REQUEST_RECEIVED"
stage_text schema_validation = codes "SCHEMA_VALIDATION"
stage_text passport_verification = codes "PASSPORT_VERIFICATION"
stage_text evidence_retrieval = codes "EVIDENCE_RETRIEVAL"
stage_text task_analyst = codes "TASK_ANALYST"
stage_text feature_calculation = codes "FEATURE_CALCULATION"
stage_text underwriting_analyst = codes "UNDERWRITING_ANALYST"
stage_text credit_risk_model = codes "CREDIT_RISK_MODEL"
stage_text independent_risk_critic = codes "INDEPENDENT_RISK_CRITIC"
stage_text policy_engine = codes "POLICY_ENGINE"
stage_text human_review = codes "HUMAN_REVIEW"
stage_text vault_creation = codes "VAULT_CREATION"
stage_text spend_monitoring = codes "SPEND_MONITORING"
stage_text revenue_collection = codes "REVENUE_COLLECTION"
stage_text repayment_waterfall = codes "REPAYMENT_WATERFALL"
stage_text audit_finalization = codes "AUDIT_FINALIZATION"

pub data PipelineStageStatus : Type 0 where
  healthy degraded waiting reviewing failed unavailable : PipelineStageStatus

pub record PipelineStage : Type 0 where
  pub stage : PipelineStageName
  pub label : Text
  pub status : PipelineStageStatus
  pub processed : MetricEnvelope
  pub succeeded : MetricEnvelope
  pub controlled_rejections : MetricEnvelope
  pub true_errors : MetricEnvelope
  pub p50_ms : MetricEnvelope
  pub p95_ms : MetricEnvelope
  pub last_completed_at : Option Timestamp
