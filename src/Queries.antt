-- ===== src/Queries.antt =====
-- frontend/lib/queries.ts: what each hook reads, the key that it is cached under, and what each write
-- marks as out of date. The cache itself is the library's; `fetch_of` is `queryFn`.
pub mod Keys
pub mod Writes
pub mod Invalidated
mod Examples
use fintech_innova_hack.Prelude.{
  ℕ, ◌*◌, Bool, true, false, not, ◌&&◌, Option, List, [], ◌∷◌, ltb, leb, if◌then◌else◌,
}
use fintech_innova_hack.Prelude.Text.{Text, codes, text_eq}
use fintech_innova_hack.Types.Intelligence.{SystemIntelligenceWindow}
use fintech_innova_hack.Client.{ApiError}
use fintech_innova_hack.Client.Records.{
  Operation, get_agent_profile, get_underwriting, get_vault_detail, get_transaction,
  get_decision_script,
}
use fintech_innova_hack.Client.Endpoints.{
  Endpoint, get_me, list_agents, list_tasks, list_credit_applications, get_underwriting_queue,
  list_vaults, list_transactions, list_repayments, get_risk_summary, list_risk_events,
  list_audit_events, verify_audit_chain, get_labels, get_dashboard_summary, get_activity,
  get_exposure_series, get_policy_parameters, list_vendors, get_readiness, get_evaluation_metrics,
  get_system_intelligence, get_voice_status,
}

pub record TransactionFilters : Type 0 where
  pub status : Option Text
  pub vault_id : Option Text
  pub agent_id : Option Text

-- The hooks that read, with their arguments.
pub data Query : Type 0 where
  me agents tasks applications underwriting_queue vaults repayments risk_summary risk_events : Query
  audit_events audit_chain labels dashboard policy vendors readiness evaluation voice_status : Query
  agent underwriting vault transaction decision_script : Text → Query
  transactions : TransactionFilters → Query
  activity exposure : ℕ → Query
  system_intelligence : SystemIntelligenceWindow → Query

-- An entry of a key.
pub data Part : Type 0 where
  text : Text → Part
  number : ℕ → Part
  filters : TransactionFilters → Part
  window : SystemIntelligenceWindow → Part

unfoldable pub key_of : Query → List Part
key_of me = text (codes "me") ∷ []
key_of agents = text (codes "agents") ∷ []
key_of (agent id) = text (codes "agents") ∷ text id ∷ []
key_of tasks = text (codes "tasks") ∷ []
key_of applications = text (codes "credit-applications") ∷ []
key_of (underwriting id) =
    text (codes "credit-applications") ∷ text id ∷ text (codes "underwriting") ∷ []
key_of underwriting_queue = text (codes "underwriting") ∷ text (codes "queue") ∷ []
key_of vaults = text (codes "vaults") ∷ []
key_of (vault id) = text (codes "vaults") ∷ text id ∷ []
key_of (transactions f) = text (codes "transactions") ∷ filters f ∷ []
key_of (transaction id) = text (codes "transactions") ∷ text id ∷ []
key_of repayments = text (codes "repayments") ∷ []
key_of risk_summary = text (codes "risk") ∷ text (codes "summary") ∷ []
key_of risk_events = text (codes "risk") ∷ text (codes "events") ∷ []
key_of audit_events = text (codes "audit") ∷ text (codes "events") ∷ []
key_of audit_chain = text (codes "audit") ∷ text (codes "chain") ∷ []
key_of labels = text (codes "audit") ∷ text (codes "labels") ∷ []
key_of dashboard = text (codes "dashboard") ∷ text (codes "summary") ∷ []
key_of (activity limit) = text (codes "dashboard") ∷ text (codes "activity") ∷ number limit ∷ []
key_of (exposure days) = text (codes "dashboard") ∷ text (codes "exposure") ∷ number days ∷ []
key_of policy = text (codes "policy") ∷ text (codes "parameters") ∷ []
key_of vendors = text (codes "vendors") ∷ []
key_of readiness = text (codes "health") ∷ text (codes "ready") ∷ []
key_of evaluation = text (codes "metrics") ∷ text (codes "evaluation") ∷ []
key_of (system_intelligence w) = text (codes "system-intelligence") ∷ window w ∷ []
key_of voice_status = text (codes "voice") ∷ text (codes "status") ∷ []
key_of (decision_script id) = text (codes "voice") ∷ text (codes "script") ∷ text id ∷ []

-- The operation that fills the entry: one that names a record, or one that does not.
pub data Fetch : Type 0 where
  endpoint : Endpoint → Fetch
  record_of : Operation → Text → Fetch

unfoldable pub fetch_of : Query → Fetch
fetch_of me = endpoint get_me
fetch_of agents = endpoint list_agents
fetch_of (agent id) = record_of get_agent_profile id
fetch_of tasks = endpoint list_tasks
fetch_of applications = endpoint list_credit_applications
fetch_of (underwriting id) = record_of get_underwriting id
fetch_of underwriting_queue = endpoint get_underwriting_queue
fetch_of vaults = endpoint list_vaults
fetch_of (vault id) = record_of get_vault_detail id
fetch_of (transactions f) = endpoint (list_transactions f.status f.vault_id f.agent_id)
fetch_of (transaction id) = record_of get_transaction id
fetch_of repayments = endpoint list_repayments
fetch_of risk_summary = endpoint get_risk_summary
fetch_of risk_events = endpoint list_risk_events
fetch_of audit_events = endpoint list_audit_events
fetch_of audit_chain = endpoint verify_audit_chain
fetch_of labels = endpoint get_labels
fetch_of dashboard = endpoint get_dashboard_summary
fetch_of (activity limit) = endpoint (get_activity limit)
fetch_of (exposure days) = endpoint (get_exposure_series days)
fetch_of policy = endpoint get_policy_parameters
fetch_of vendors = endpoint list_vendors
fetch_of readiness = endpoint get_readiness
fetch_of evaluation = endpoint get_evaluation_metrics
fetch_of (system_intelligence w) = endpoint (get_system_intelligence w)
fetch_of voice_status = endpoint get_voice_status
fetch_of (decision_script id) = record_of get_decision_script id

-- A hook for one record waits until it has the identifier.
unfoldable pub is_enabled : Query → Bool
unfolding text_eq
is_enabled (agent id) = not (text_eq id [])
is_enabled (underwriting id) = not (text_eq id [])
is_enabled (vault id) = not (text_eq id [])
is_enabled (transaction id) = not (text_eq id [])
is_enabled (decision_script id) = not (text_eq id [])
is_enabled _ = true

pub data StaleTime : Type 0 where
  default never : StaleTime
  after_ms : ℕ → StaleTime

unfoldable pub stale_time : Query → StaleTime
stale_time me = after_ms (5 * 60000)
stale_time labels = never
stale_time policy = after_ms (10 * 60000)
stale_time vendors = after_ms (10 * 60000)
stale_time voice_status = after_ms (10 * 60000)
stale_time _ = default

-- frontend/lib/providers.tsx: whether a read that failed is tried again, by the number of failures
-- before this one.
unfoldable pub retries : ℕ → ApiError → Bool
retries failure_count e =
    if leb 400 e.status && ltb e.status 500 then false else ltb failure_count 2
