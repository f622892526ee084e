-- ===== src/Client/Served.antt =====
-- The proxy serves what the client calls.
use fintech_innova_hack.Prelude.{◌≡◌, refl, ◌≢◌, none, List, [], ◌∷◌, All, false}
use fintech_innova_hack.Prelude.Text.{Text, codes, text_eq, join, split}
use fintech_innova_hack.Prelude.Text.Laws.{text_eq_refl, Lacks, split-join}
use fintech_innova_hack.Types.Policy.{
  ScenarioName, scenario_text, happy_path, overspend, unapproved_vendor, split_payment,
  revoke_mid_task, task_failure,
}
use fintech_innova_hack.Server.Http.{Platform}
use fintech_innova_hack.Server.Backend.{demo_token}
use fintech_innova_hack.Proxy.{Request, refusal, is_bad_segment, has_unit}
use fintech_innova_hack.Proxy.Guards.{
  IsPlain, IsMutating, IsSameSite, is_bad_segment_iff, refusal_iff,
}
use fintech_innova_hack.Client.Endpoints.{
  Endpoint, endpoint_path, endpoint_method, get_me, list_agents, list_tasks,
  list_credit_applications, get_underwriting_queue, create_agent, create_task, create_application,
  create_vault, list_vaults, list_transactions, list_repayments, get_risk_summary, list_risk_events,
  list_audit_events, verify_audit_chain, get_labels, get_dashboard_summary, get_activity,
  get_exposure_series, get_policy_parameters, list_vendors, get_readiness, get_evaluation_metrics,
  run_scenario, get_system_intelligence, get_voice_status,
}

-- The parts of a path after the version.
abbrev pub endpoint_parts : Endpoint → List Text
endpoint_parts get_me = codes "me" ∷ []
endpoint_parts list_agents = codes "agents" ∷ []
endpoint_parts list_tasks = codes "tasks" ∷ []
endpoint_parts list_credit_applications = codes "credit-applications" ∷ []
endpoint_parts get_underwriting_queue = codes "underwriting" ∷ codes "queue" ∷ []
endpoint_parts create_agent = codes "agents" ∷ []
endpoint_parts create_task = codes "tasks" ∷ []
endpoint_parts create_application = codes "credit-applications" ∷ []
endpoint_parts create_vault = codes "vaults" ∷ []
endpoint_parts list_vaults = codes "vaults" ∷ []
endpoint_parts (list_transactions status vault agent) = codes "transactions" ∷ []
endpoint_parts list_repayments = codes "repayments" ∷ []
endpoint_parts get_risk_summary = codes "risk" ∷ codes "summary" ∷ []
endpoint_parts list_risk_events = codes "risk" ∷ codes "events" ∷ []
endpoint_parts list_audit_events = codes "audit" ∷ codes "events" ∷ []
endpoint_parts verify_audit_chain = codes "audit" ∷ codes "chain" ∷ codes "verify" ∷ []
endpoint_parts get_labels = codes "audit" ∷ codes "labels" ∷ []
endpoint_parts get_dashboard_summary = codes "dashboard" ∷ codes "summary" ∷ []
endpoint_parts (get_activity limit) = codes "dashboard" ∷ codes "activity" ∷ []
endpoint_parts (get_exposure_series days) = codes "dashboard" ∷ codes "exposure-series" ∷ []
endpoint_parts get_policy_parameters = codes "policy" ∷ codes "parameters" ∷ []
endpoint_parts list_vendors = codes "vendors" ∷ []
endpoint_parts get_readiness = codes "health" ∷ codes "ready" ∷ []
endpoint_parts get_evaluation_metrics = codes "metrics" ∷ codes "evaluation" ∷ []
endpoint_parts (run_scenario name) = codes "demo" ∷ codes "scenarios" ∷ scenario_text name ∷ []
endpoint_parts (get_system_intelligence window) = codes "system-intelligence" ∷ []
endpoint_parts get_voice_status = codes "voice" ∷ codes "status" ∷ []

is_bad_segment-scenario_text : (name : ScenarioName) → is_bad_segment (scenario_text name) ≡ false
unfolding is_bad_segment scenario_text text_eq has_unit
is_bad_segment-scenario_text happy_path = refl
is_bad_segment-scenario_text overspend = refl
is_bad_segment-scenario_text unapproved_vendor = refl
is_bad_segment-scenario_text split_payment = refl
is_bad_segment-scenario_text revoke_mid_task = refl
is_bad_segment-scenario_text task_failure = refl

good : (s : Text) → is_bad_segment s ≡ false → IsPlain s
good s = (is_bad_segment_iff s).0

endpoint_parts-IsPlain : (e : Endpoint) → All IsPlain (endpoint_parts e)
unfolding is_bad_segment text_eq has_unit
endpoint_parts-IsPlain get_me = (good (codes "me") refl, tt)
endpoint_parts-IsPlain list_agents = (good (codes "agents") refl, tt)
endpoint_parts-IsPlain list_tasks = (good (codes "tasks") refl, tt)
endpoint_parts-IsPlain list_credit_applications = (good (codes "credit-applications") refl, tt)
endpoint_parts-IsPlain get_underwriting_queue =
    (good (codes "underwriting") refl, (good (codes "queue") refl, tt))
endpoint_parts-IsPlain create_agent = (good (codes "agents") refl, tt)
endpoint_parts-IsPlain create_task = (good (codes "tasks") refl, tt)
endpoint_parts-IsPlain create_application = (good (codes "credit-applications") refl, tt)
endpoint_parts-IsPlain create_vault = (good (codes "vaults") refl, tt)
endpoint_parts-IsPlain list_vaults = (good (codes "vaults") refl, tt)
endpoint_parts-IsPlain (list_transactions status vault agent) =
    (good (codes "transactions") refl, tt)
endpoint_parts-IsPlain list_repayments = (good (codes "repayments") refl, tt)
endpoint_parts-IsPlain get_risk_summary =
    (good (codes "risk") refl, (good (codes "summary") refl, tt))
endpoint_parts-IsPlain list_risk_events =
    (good (codes "risk") refl, (good (codes "events") refl, tt))
endpoint_parts-IsPlain list_audit_events =
    (good (codes "audit") refl, (good (codes "events") refl, tt))
endpoint_parts-IsPlain verify_audit_chain =
    (good (codes "audit") refl, (good (codes "chain") refl, (good (codes "verify") refl, tt)))
endpoint_parts-IsPlain get_labels = (good (codes "audit") refl, (good (codes "labels") refl, tt))
endpoint_parts-IsPlain get_dashboard_summary =
    (good (codes "dashboard") refl, (good (codes "summary") refl, tt))
endpoint_parts-IsPlain (get_activity limit) =
    (good (codes "dashboard") refl, (good (codes "activity") refl, tt))
endpoint_parts-IsPlain (get_exposure_series days) =
    (good (codes "dashboard") refl, (good (codes "exposure-series") refl, tt))
endpoint_parts-IsPlain get_policy_parameters =
    (good (codes "policy") refl, (good (codes "parameters") refl, tt))
endpoint_parts-IsPlain list_vendors = (good (codes "vendors") refl, tt)
endpoint_parts-IsPlain get_readiness = (good (codes "health") refl, (good (codes "ready") refl, tt))
endpoint_parts-IsPlain get_evaluation_metrics =
    (good (codes "metrics") refl, (good (codes "evaluation") refl, tt))
endpoint_parts-IsPlain (run_scenario name) = (
  good (codes "demo") refl,
  (
    good (codes "scenarios") refl,
    (good (scenario_text name) (is_bad_segment-scenario_text name), tt),
  ),
)
endpoint_parts-IsPlain (get_system_intelligence window) =
    (good (codes "system-intelligence") refl, tt)
endpoint_parts-IsPlain get_voice_status =
    (good (codes "voice") refl, (good (codes "status") refl, tt))

-- The path is its parts, joined.
endpoint_path-join :
    (e : Endpoint) → endpoint_path e ≡ join b'/' ([] ∷ codes "v1" ∷ endpoint_parts e)
unfolding endpoint_path join
endpoint_path-join get_me = refl
endpoint_path-join list_agents = refl
endpoint_path-join list_tasks = refl
endpoint_path-join list_credit_applications = refl
endpoint_path-join get_underwriting_queue = refl
endpoint_path-join create_agent = refl
endpoint_path-join create_task = refl
endpoint_path-join create_application = refl
endpoint_path-join create_vault = refl
endpoint_path-join list_vaults = refl
endpoint_path-join (list_transactions status vault agent) = refl
endpoint_path-join list_repayments = refl
endpoint_path-join get_risk_summary = refl
endpoint_path-join list_risk_events = refl
endpoint_path-join list_audit_events = refl
endpoint_path-join verify_audit_chain = refl
endpoint_path-join get_labels = refl
endpoint_path-join get_dashboard_summary = refl
endpoint_path-join (get_activity limit) = refl
endpoint_path-join (get_exposure_series days) = refl
endpoint_path-join get_policy_parameters = refl
endpoint_path-join list_vendors = refl
endpoint_path-join get_readiness = refl
endpoint_path-join get_evaluation_metrics = refl
endpoint_path-join (run_scenario name) = refl
endpoint_path-join (get_system_intelligence window) = refl
endpoint_path-join get_voice_status = refl

not_same : (s t : Text) (ss ts : List Text) → text_eq s t ≡ false → s ∷ ss ≢ t ∷ ts
not_same s t ss ts h d = cc (text_eq_refl t)

-- Whatever path of the demonstration is called is a scenario's.
demo_parts :
    (e : Endpoint) (rest : List Text)
    → endpoint_parts e ≡ codes "demo" ∷ rest
    → (name : ScenarioName) × (endpoint_parts e
        ≡ codes "demo" ∷ codes "scenarios" ∷ scenario_text name ∷ [])
unfolding text_eq
demo_parts get_me rest d = absurd (not_same (codes "me") (codes "demo") ([]) rest refl d)
demo_parts list_agents rest d = absurd (not_same (codes "agents") (codes "demo") ([]) rest refl d)
demo_parts list_tasks rest d = absurd (not_same (codes "tasks") (codes "demo") ([]) rest refl d)
demo_parts list_credit_applications rest d =
    absurd (not_same (codes "credit-applications") (codes "demo") ([]) rest refl d)
demo_parts get_underwriting_queue rest d =
    absurd (not_same (codes "underwriting") (codes "demo") (codes "queue" ∷ []) rest refl d)
demo_parts create_agent rest d = absurd (not_same (codes "agents") (codes "demo") ([]) rest refl d)
demo_parts create_task rest d = absurd (not_same (codes "tasks") (codes "demo") ([]) rest refl d)
demo_parts create_application rest d =
    absurd (not_same (codes "credit-applications") (codes "demo") ([]) rest refl d)
demo_parts create_vault rest d = absurd (not_same (codes "vaults") (codes "demo") ([]) rest refl d)
demo_parts list_vaults rest d = absurd (not_same (codes "vaults") (codes "demo") ([]) rest refl d)
demo_parts (list_transactions status vault agent) rest d =
    absurd (not_same (codes "transactions") (codes "demo") ([]) rest refl d)
demo_parts list_repayments rest d =
    absurd (not_same (codes "repayments") (codes "demo") ([]) rest refl d)
demo_parts get_risk_summary rest d =
    absurd (not_same (codes "risk") (codes "demo") (codes "summary" ∷ []) rest refl d)
demo_parts list_risk_events rest d =
    absurd (not_same (codes "risk") (codes "demo") (codes "events" ∷ []) rest refl d)
demo_parts list_audit_events rest d =
    absurd (not_same (codes "audit") (codes "demo") (codes "events" ∷ []) rest refl d)
demo_parts verify_audit_chain rest d =
    absurd
      (not_same (codes "audit") (codes "demo") (codes "chain" ∷ codes "verify" ∷ []) rest refl d)
demo_parts get_labels rest d =
    absurd (not_same (codes "audit") (codes "demo") (codes "labels" ∷ []) rest refl d)
demo_parts get_dashboard_summary rest d =
    absurd (not_same (codes "dashboard") (codes "demo") (codes "summary" ∷ []) rest refl d)
demo_parts (get_activity limit) rest d =
    absurd (not_same (codes "dashboard") (codes "demo") (codes "activity" ∷ []) rest refl d)
demo_parts (get_exposure_series days) rest d =
    absurd (not_same (codes "dashboard") (codes "demo") (codes "exposure-series" ∷ []) rest refl d)
demo_parts get_policy_parameters rest d =
    absurd (not_same (codes "policy") (codes "demo") (codes "parameters" ∷ []) rest refl d)
demo_parts list_vendors rest d = absurd (not_same (codes "vendors") (codes "demo") ([]) rest refl d)
demo_parts get_readiness rest d =
    absurd (not_same (codes "health") (codes "demo") (codes "ready" ∷ []) rest refl d)
demo_parts get_evaluation_metrics rest d =
    absurd (not_same (codes "metrics") (codes "demo") (codes "evaluation" ∷ []) rest refl d)
demo_parts (run_scenario name) rest d = (name, refl)
demo_parts (get_system_intelligence window) rest d =
    absurd (not_same (codes "system-intelligence") (codes "demo") ([]) rest refl d)
demo_parts get_voice_status rest d =
    absurd (not_same (codes "voice") (codes "demo") (codes "status" ∷ []) rest refl d)

-- The same of the parts that the router reads.
refusal-parts :
    (p : Platform) (req : Request) (e : Endpoint)
    → req.segments ≡ codes "v1" ∷ endpoint_parts e
    → req.method ≡ endpoint_method e
    → demo_token p.demo ≢ []
    → (IsMutating (endpoint_method e) → IsSameSite p req)
    → refusal p req ≡ none
unfolding is_bad_segment text_eq has_unit
refusal-parts p req e s m token same = (refusal_iff p req).1 (record {
  plain = rw s (good (codes "v1") refl, endpoint_parts-IsPlain e);
  versioned = (endpoint_parts e, s);
  same_site = λ w. same (rw m at w);
  scenario = λ rest d.
      let (name, f) = demo_parts e rest (cc) in (scenario_text name, rw (s, f) refl, token);
})

All-Lacks : (ss : List Text) → All IsPlain ss → All (Lacks b'/') ss
All-Lacks [] h = tt
All-Lacks (s ∷ ss) (p, h) = (p.2, All-Lacks ss h)

split-endpoint_path :
    (e : Endpoint) → split b'/' (endpoint_path e) ≡ [] ∷ codes "v1" ∷ endpoint_parts e
unfolding is_bad_segment text_eq has_unit
split-endpoint_path e = rw (endpoint_path-join e) (
    split-join b'/' [] (codes "v1" ∷ endpoint_parts e) (
      tt,
      All-Lacks (codes "v1" ∷ endpoint_parts e) (good (codes "v1") refl, endpoint_parts-IsPlain e),
    ))

-- With a demonstration token configured, the proxy refuses no operation that names no record, if the
-- segments that its router reads are the parts of the operation's path, and an operation that writes
-- comes from a page of the proxy's host.
pub refusal-endpoint_path :
    (p : Platform) (req : Request) (e : Endpoint)
    → split b'/' (endpoint_path e) ≡ [] ∷ req.segments
    → req.method ≡ endpoint_method e
    → demo_token p.demo ≢ []
    → (IsMutating (endpoint_method e) → IsSameSite p req)
    → refusal p req ≡ none
refusal-endpoint_path p req e s m token same =
    let read : req.segments ≡ codes "v1" ∷ endpoint_parts e = cc (s, split-endpoint_path e) in
    refusal-parts p req e read m token same
