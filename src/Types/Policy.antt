-- ===== src/Types/Policy.antt =====
-- frontend/lib/types.ts: policy, health and the demonstration.
use fintech_innova_hack.Prelude.{Bool, Option, List, [], ◌∷◌}
use fintech_innova_hack.Prelude.Text.{Text, codes}
use fintech_innova_hack.Prelude.Int.{ℤ}
use fintech_innova_hack.Json.{Entries}
use fintech_innova_hack.Types.Scalars.{Ppm}

pub record PolicyParametersCreditPolicy : Type 0 where
  pub advance_rate_ppm : Ppm
  pub lgd_ppm_default : Ppm
  pub auto_approve_max_pd_ppm : Ppm
  pub auto_approve_max_el_ratio_ppm : Ppm
  pub fee_rate_ppm : Ppm
  pub decision_version : Text
  pub scorecard_version : Text
  pub limit_formula : Text

pub record PolicyParametersRiskPolicy : Type 0 where
  pub velocity_window_seconds : ℤ
  pub velocity_max_transactions : ℤ
  pub max_transactions_default : ℤ
  pub spendable_vault_statuses : List Text
  pub active_controls : ℤ
  pub anti_splitting : Text

pub record PolicyParametersEnvironment : Type 0 where
  pub run_mode : Text
  pub environment : Text
  pub model_provider : Text
  pub voice_provider : Text
  pub test_credits_only : Bool

pub record PolicyParameters : Type 0 where
  pub credit_policy : PolicyParametersCreditPolicy
  pub risk_policy : PolicyParametersRiskPolicy
  pub environment : PolicyParametersEnvironment

pub record Vendor : Type 0 where
  pub vendor_id : Text
  pub name : Text
  pub category : Text
  pub status : Text

pub record Readiness : Type 0 where
  pub status : Text
  pub version : Text
  pub run_mode : Text
  pub environment : Text
  pub model_provider : Text
  pub test_credits_only : Bool

pub record EvaluationMetrics : Type 0 where
  pub ledger_balanced : Bool
  pub ledger_imbalance : List (Text × ℤ)
  pub audit_chain_intact : Bool
  pub environment : Text
  pub run_mode : Text
  pub test_credits_only : Bool

pub data ScenarioName : Type 0 where
  happy_path overspend unapproved_vendor split_payment revoke_mid_task task_failure : ScenarioName

abbrev pub scenarios : List ScenarioName
scenarios =
    happy_path ∷ overspend ∷ unapproved_vendor ∷ split_payment ∷ revoke_mid_task ∷ task_failure ∷ []

-- The text that stands for it.
unfoldable pub scenario_text : ScenarioName → Text
scenario_text happy_path = codes "happy-path"
scenario_text overspend = codes "overspend"
scenario_text unapproved_vendor = codes "unapproved-vendor"
scenario_text split_payment = codes "split-payment"
scenario_text revoke_mid_task = codes "revoke-mid-task"
scenario_text task_failure = codes "task-failure"

pub record ScenarioResultSeed : Type 0 where
  pub organization_id : Text
  pub owner_user_id : Text
  pub agent_id : Text
  pub agent_name : Text
  pub owner_api_token : Option Text
  pub passport_nonce : Text

pub record ScenarioResult : Type 0 where
  pub scenario : Text
  pub seed : ScenarioResultSeed
  pub others : Entries
