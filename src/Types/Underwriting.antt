-- ===== src/Types/Underwriting.antt =====
-- frontend/lib/types.ts: the underwriting view.
use fintech_innova_hack.Prelude.{Bool, Option, List}
use fintech_innova_hack.Prelude.Text.{Text}
use fintech_innova_hack.Prelude.Int.{ℤ}
use fintech_innova_hack.Types.Scalars.{Money, Ppm, Timestamp}
use fintech_innova_hack.Types.Agents.{AgentFeatures}
use fintech_innova_hack.Types.Credit.{
  CreditApplicationSummary, EvidenceItem, PolicyDecisionRecord, RevenueMandate,
}

pub record AiRecommendationClaims : Type 0 where
  pub claim_id : Text
  pub text : Text
  pub evidence_ids : List Text

pub record AiRecommendation : Type 0 where
  pub role : Text
  pub model_profile : Text
  pub schema_valid : Bool
  pub summary : Text
  pub claims : List AiRecommendationClaims
  pub risk_flags : List Text
  pub missing_evidence : List Text
  pub evidence_ids : List Text
  pub created_at : Option Timestamp

pub record DeterministicEngineCaps : Type 0 where
  pub requested_minor : Money
  pub available_exposure_minor : Money
  pub revenue_advance_cap_minor : Money
  pub task_cost_cap_minor : Money
  pub policy_cap_minor : Money

pub record DeterministicEngine : Type 0 where
  pub decision : Text
  pub approved_limit_minor : Money
  pub caps : DeterministicEngineCaps
  pub reason_codes : List Text
  pub receipt_hash : Option Text
  pub created_at : Option Timestamp
  pub pd_ppm : Ppm
  pub lgd_ppm : Ppm
  pub ead_minor : Money
  pub expected_loss_minor : Money
  pub model_name : Text
  pub is_simulation : Bool
  pub features : AgentFeatures

pub record VerifiedClaim : Type 0 where
  pub claim_id : Text
  pub text : Text
  pub evidence_ids : List Text
  pub unknown_evidence_ids : List Text

pub data IndependentVerifierVerdict : Type 0 where
  no_model_analysis contradictions_found claims_trace_to_evidence : IndependentVerifierVerdict

pub record IndependentVerifier : Type 0 where
  pub claims_total : ℤ
  pub claims_supported : ℤ
  pub claims_unsupported : ℤ
  pub supported : List VerifiedClaim
  pub unsupported : List VerifiedClaim
  pub analyst_risk_flags_unverified : List Text
  pub model_output_schema_valid : Bool
  pub model_influenced_amounts : Bool
  pub verdict : IndependentVerifierVerdict
  pub note_ : Text

pub record UnderwritingViewApplication : Type 0 where
  pub application_id : Text
  pub status : Text
  pub currency : Text
  pub requested_minor : Money
  pub requested_duration_hours : ℤ
  pub expected_revenue_minor : Money
  pub expected_cost_minor : Money
  pub expected_margin_minor : Money
  pub owner_exposure_cap_minor : Money
  pub proposed_vendor_ids : List Text
  pub created_at : Option Timestamp

pub record UnderwritingViewAgent : Type 0 where
  pub agent_id : Text
  pub name : Text
  pub status : Text
  pub model_name : Text

pub record UnderwritingViewTask : Type 0 where
  pub task_id : Text
  pub title : Text
  pub description : Text
  pub category : Text
  pub status : Text

pub record UnderwritingViewHumanReviews : Type 0 where
  pub action : Text
  pub amount_minor : Option Money
  pub notes : Option Text
  pub reviewer_user_id : Text
  pub created_at : Option Timestamp

pub record UnderwritingView : Type 0 where
  pub application : UnderwritingViewApplication
  pub agent : UnderwritingViewAgent
  pub task : UnderwritingViewTask
  pub revenue_mandate : Option RevenueMandate
  pub evidence : List EvidenceItem
  pub ai_recommendation : Option AiRecommendation
  pub deterministic_engine : Option DeterministicEngine
  pub verifier : IndependentVerifier
  pub policy_decisions : List PolicyDecisionRecord
  pub human_reviews : List UnderwritingViewHumanReviews

pub data UnderwritingQueueBucket : Type 0 where
  awaiting_ai_analysis awaiting_deterministic_decision awaiting_human_review recently_completed :
      UnderwritingQueueBucket

pub record UnderwritingQueue : Type 0 where
  pub buckets : UnderwritingQueueBucket → List CreditApplicationSummary
  pub counts : UnderwritingQueueBucket → ℤ
