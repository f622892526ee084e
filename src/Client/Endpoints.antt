-- ===== src/Client/Endpoints.antt =====
-- The operations of frontend/lib/api.ts that name no record. Those that write are called with a body,
-- which is sent as it is.
use fintech_innova_hack.Prelude.{ℕ, Option, some, [], ◌∷◌, ◌++◌}
use fintech_innova_hack.Prelude.Text.{Text, codes}
use fintech_innova_hack.Json.{Json}
use fintech_innova_hack.Format.Decimal.{decimal}
use fintech_innova_hack.Types.Policy.{ScenarioName, scenario_text}
use fintech_innova_hack.Types.Intelligence.{
  SystemIntelligenceWindow, last_1h, last_24h, last_7d, last_30d,
}
use fintech_innova_hack.Client.{Browser, Answer, qs, request, post}

pub data Endpoint : Type 0 where
  get_me : Endpoint
  list_agents : Endpoint
  list_tasks : Endpoint
  list_credit_applications : Endpoint
  get_underwriting_queue : Endpoint
  create_agent : Endpoint
  create_task : Endpoint
  create_application : Endpoint
  create_vault : Endpoint
  list_vaults : Endpoint
  list_transactions : (status vault agent : Option Text) → Endpoint
  list_repayments : Endpoint
  get_risk_summary : Endpoint
  list_risk_events : Endpoint
  list_audit_events : Endpoint
  verify_audit_chain : Endpoint
  get_labels : Endpoint
  get_dashboard_summary : Endpoint
  get_activity : (limit : ℕ) → Endpoint
  get_exposure_series : (days : ℕ) → Endpoint
  get_policy_parameters : Endpoint
  list_vendors : Endpoint
  get_readiness : Endpoint
  get_evaluation_metrics : Endpoint
  run_scenario : (name : ScenarioName) → Endpoint
  get_system_intelligence : (window : SystemIntelligenceWindow) → Endpoint
  get_voice_status : Endpoint

-- The path before a question mark. Where the code has a default for an argument, the caller gives it.
unfoldable pub endpoint_path : Endpoint → Text
unfolding scenario_text
endpoint_path get_me = codes "/v1/me"
endpoint_path list_agents = codes "/v1/agents"
endpoint_path list_tasks = codes "/v1/tasks"
endpoint_path list_credit_applications = codes "/v1/credit-applications"
endpoint_path get_underwriting_queue = codes "/v1/underwriting/queue"
endpoint_path create_agent = codes "/v1/agents"
endpoint_path create_task = codes "/v1/tasks"
endpoint_path create_application = codes "/v1/credit-applications"
endpoint_path create_vault = codes "/v1/vaults"
endpoint_path list_vaults = codes "/v1/vaults"
endpoint_path (list_transactions status vault agent) = codes "/v1/transactions"
endpoint_path list_repayments = codes "/v1/repayments"
endpoint_path get_risk_summary = codes "/v1/risk/summary"
endpoint_path list_risk_events = codes "/v1/risk/events"
endpoint_path list_audit_events = codes "/v1/audit/events"
endpoint_path verify_audit_chain = codes "/v1/audit/chain/verify"
endpoint_path get_labels = codes "/v1/audit/labels"
endpoint_path get_dashboard_summary = codes "/v1/dashboard/summary"
endpoint_path (get_activity limit) = codes "/v1/dashboard/activity"
endpoint_path (get_exposure_series days) = codes "/v1/dashboard/exposure-series"
endpoint_path get_policy_parameters = codes "/v1/policy/parameters"
endpoint_path list_vendors = codes "/v1/vendors"
endpoint_path get_readiness = codes "/v1/health/ready"
endpoint_path get_evaluation_metrics = codes "/v1/metrics/evaluation"
endpoint_path (run_scenario name) = codes "/v1/demo/scenarios/" ++ scenario_text name
endpoint_path (get_system_intelligence window) = codes "/v1/system-intelligence"
endpoint_path get_voice_status = codes "/v1/voice/status"

unfoldable pub endpoint_method : Endpoint → Text
endpoint_method get_me = codes "GET"
endpoint_method list_agents = codes "GET"
endpoint_method list_tasks = codes "GET"
endpoint_method list_credit_applications = codes "GET"
endpoint_method get_underwriting_queue = codes "GET"
endpoint_method create_agent = codes "POST"
endpoint_method create_task = codes "POST"
endpoint_method create_application = codes "POST"
endpoint_method create_vault = codes "POST"
endpoint_method list_vaults = codes "GET"
endpoint_method (list_transactions status vault agent) = codes "GET"
endpoint_method list_repayments = codes "GET"
endpoint_method get_risk_summary = codes "GET"
endpoint_method list_risk_events = codes "GET"
endpoint_method list_audit_events = codes "GET"
endpoint_method verify_audit_chain = codes "GET"
endpoint_method get_labels = codes "GET"
endpoint_method get_dashboard_summary = codes "GET"
endpoint_method (get_activity limit) = codes "GET"
endpoint_method (get_exposure_series days) = codes "GET"
endpoint_method get_policy_parameters = codes "GET"
endpoint_method list_vendors = codes "GET"
endpoint_method get_readiness = codes "GET"
endpoint_method get_evaluation_metrics = codes "GET"
endpoint_method (run_scenario name) = codes "POST"
endpoint_method (get_system_intelligence window) = codes "GET"
endpoint_method get_voice_status = codes "GET"

window_text : SystemIntelligenceWindow → Text
window_text last_1h = codes "1h"
window_text last_24h = codes "24h"
window_text last_7d = codes "7d"
window_text last_30d = codes "30d"

-- The query of an operation that has one.
unfoldable pub endpoint_query : Browser → Endpoint → Text
unfolding qs window_text decimal
endpoint_query b (list_transactions status vault agent) =
    qs b ((codes "status", status) ∷ (codes "vault_id", vault) ∷ (codes "agent_id", agent) ∷ [])
endpoint_query b (get_activity limit) = qs b ((codes "limit", some (decimal limit)) ∷ [])
endpoint_query b (get_exposure_series days) = qs b ((codes "days", some (decimal days)) ∷ [])
endpoint_query b (get_system_intelligence window) =
    qs b ((codes "window", some (window_text window)) ∷ [])
endpoint_query b _ = []

-- A call that reads.
unfoldable pub read : Browser → Endpoint → Answer
unfolding request endpoint_path endpoint_query
read b e = request b (endpoint_path e ++ endpoint_query b e)

-- A call that writes.
unfoldable pub write : Browser → Endpoint → Option Json → Answer
unfolding post endpoint_path
write b e body = post b (endpoint_path e) body
