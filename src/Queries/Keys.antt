-- ===== src/Queries/Keys.antt =====
-- Which queries share an entry of the cache.
use fintech_innova_hack.Prelude.{◌≡◌, refl, sym, ap, ◌∙◌, List, [], ◌∷◌, if◌then◌else◌}
use fintech_innova_hack.Prelude.Text.{Text, codes, text_eq}
use fintech_innova_hack.Queries.{
  Query, Part, text, number, filters, window, key_of, fetch_of, me, agents, tasks, applications,
  underwriting_queue, vaults, repayments, risk_summary, risk_events, audit_events, audit_chain,
  labels, dashboard, policy, vendors, readiness, evaluation, voice_status, agent, underwriting,
  vault, transaction, decision_script, transactions, activity, exposure, system_intelligence,
}

-- The query of a key with one entry, two and three; what is no key counts as `me`.
one : Text → Query
unfolding text_eq
one a =
    if text_eq a (codes "agents")
    then agents
    else if text_eq a (codes "tasks")
    then tasks
    else if text_eq a (codes "credit-applications")
    then applications
    else if text_eq a (codes "vaults")
    then vaults
    else if text_eq a (codes "repayments")
    then repayments
    else if text_eq a (codes "vendors")
    then vendors
    else me

two : Text → Text → Query
unfolding text_eq
two a b =
    if text_eq a (codes "agents")
    then agent b
    else if text_eq a (codes "underwriting")
    then underwriting_queue
    else if text_eq a (codes "vaults")
    then vault b
    else if text_eq a (codes "transactions")
    then transaction b
    else if text_eq a (codes "risk")
    then (if text_eq b (codes "summary") then risk_summary else risk_events)
    else if text_eq a (codes "audit")
    then (if text_eq b (codes "events")
        then audit_events
        else if text_eq b (codes "chain")
        then audit_chain
        else labels)
    else if text_eq a (codes "dashboard")
    then dashboard
    else if text_eq a (codes "policy")
    then policy
    else if text_eq a (codes "health")
    then readiness
    else if text_eq a (codes "metrics")
    then evaluation
    else voice_status

three : Text → Text → Part → Query
unfolding text_eq
three a b (number n) = if text_eq b (codes "activity") then activity n else exposure n
three a b (text c) = if text_eq a (codes "voice") then decision_script c else underwriting b
three a b _ = me

query_at : List Part → Query
unfolding one two three
query_at (text a ∷ []) = one a
query_at (text a ∷ text b ∷ []) = two a b
query_at (text a ∷ filters f ∷ []) = transactions f
query_at (text a ∷ window w ∷ []) = system_intelligence w
query_at (text a ∷ text b ∷ c ∷ []) = three a b c
query_at _ = me

query_at-key_of : (q : Query) → query_at (key_of q) ≡ q
unfolding query_at key_of one two three text_eq
query_at-key_of me = refl
query_at-key_of agents = refl
query_at-key_of tasks = refl
query_at-key_of applications = refl
query_at-key_of underwriting_queue = refl
query_at-key_of vaults = refl
query_at-key_of repayments = refl
query_at-key_of risk_summary = refl
query_at-key_of risk_events = refl
query_at-key_of audit_events = refl
query_at-key_of audit_chain = refl
query_at-key_of labels = refl
query_at-key_of dashboard = refl
query_at-key_of policy = refl
query_at-key_of vendors = refl
query_at-key_of readiness = refl
query_at-key_of evaluation = refl
query_at-key_of voice_status = refl
query_at-key_of (agent id) = refl
query_at-key_of (underwriting id) = refl
query_at-key_of (vault id) = refl
query_at-key_of (transaction id) = refl
query_at-key_of (decision_script id) = refl
query_at-key_of (transactions f) = refl
query_at-key_of (activity n) = refl
query_at-key_of (exposure n) = refl
query_at-key_of (system_intelligence w) = refl

-- Two hooks that read under one key are the same hook with the same arguments: no entry of the cache is
-- filled by two operations.
pub key_of-injective : (q r : Query) → key_of q ≡ key_of r → (q ≡ r) × (fetch_of q ≡ fetch_of r)
key_of-injective q r e =
    let same = sym (query_at-key_of q) ∙ ap query_at e ∙ query_at-key_of r in
    (same, ap fetch_of same)
