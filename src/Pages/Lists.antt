-- ===== src/Pages/Lists.antt =====
-- The rows of the list pages: credit-applications/page.tsx, vaults/page.tsx, agents/page.tsx and
-- transactions/page.tsx. A list that has not arrived is `none`.
pub mod Rows
pub mod Stages
use fintech_innova_hack.Prelude.{
  Bool, true, false, not, ◌&&◌, ◌||◌, Option, none, some, List, [], ◌∷◌, any, keep, if◌then◌else◌,
}
use fintech_innova_hack.Prelude.Text.{Text, codes, text_eq}
use fintech_innova_hack.Types.Agents.{AgentSummary}
use fintech_innova_hack.Types.Credit.{CreditApplicationSummary}
use fintech_innova_hack.Types.Transactions.{TransactionSummary}
use fintech_innova_hack.Types.Vaults.{VaultSummary}
use fintech_innova_hack.Queries.{Query, TransactionFilters, transactions}
use fintech_innova_hack.Pages.Search.{needle_of, is_found}

-- The lists that stay closed sets of texts.
abbrev pub approved_family : List Text
approved_family = codes "APPROVED" ∷ codes "VAULT_CREATED" ∷ codes "DISBURSEMENT_ENABLED" ∷ []

abbrev pub terminalish : List Text
terminalish =
    codes "APPROVED"
    ∷ codes "VAULT_CREATED"
    ∷ codes "DISBURSEMENT_ENABLED"
    ∷ codes "REJECTED"
    ∷ codes "HUMAN_REVIEW_REQUIRED"
    ∷ []

abbrev pub stage_filters : List Text
stage_filters =
    []
    ∷ codes "IN_FLIGHT"
    ∷ codes "HUMAN_REVIEW_REQUIRED"
    ∷ codes "APPROVED"
    ∷ codes "REJECTED"
    ∷ []

-- `set.has(text)`
unfoldable pub has : List Text → Text → Bool
unfolding text_eq
has set t = any (text_eq t) set

-- The four tests of the stage, each of which drops the row.
unfoldable pub is_off_stage : Text → Text → Bool
unfolding text_eq has
is_off_stage stage status =
    (text_eq stage (codes "HUMAN_REVIEW_REQUIRED")
      && not (text_eq status (codes "HUMAN_REVIEW_REQUIRED")))
    || (text_eq stage (codes "APPROVED") && not (has approved_family status))
    || (text_eq stage (codes "REJECTED") && not (text_eq status (codes "REJECTED")))
    || (text_eq stage (codes "IN_FLIGHT") && has terminalish status)

unfoldable pub application_fields : CreditApplicationSummary → List Text
application_fields a = a.application_id ∷ a.agent_name ∷ a.task_title ∷ []

unfoldable pub application_listed : (Text → Text) → Text → Text → CreditApplicationSummary → Bool
unfolding is_off_stage is_found application_fields
application_listed lower stage needle a =
    if is_off_stage stage a.status then false else is_found lower needle (application_fields a)

unfoldable pub application_rows :
    (Text → Text)
    → Option (List CreditApplicationSummary)
    → (stage search : Text) → List CreditApplicationSummary
unfolding application_listed needle_of
application_rows lower none stage search = []
application_rows lower (some applications) stage search =
    keep (application_listed lower stage (needle_of lower search)) applications

-- `status !== "" && row.status !== status`
unfoldable pub is_other_status : Text → Text → Bool
unfolding text_eq
is_other_status wanted status = not (text_eq wanted []) && not (text_eq status wanted)

unfoldable pub vault_fields : VaultSummary → List Text
vault_fields v = v.vault_id ∷ v.agent_name ∷ v.task_title ∷ []

unfoldable pub vault_listed : (Text → Text) → Text → Text → VaultSummary → Bool
unfolding is_other_status is_found vault_fields
vault_listed lower wanted needle v =
    if is_other_status wanted v.status then false else is_found lower needle (vault_fields v)

-- The status begins as the one that the address names, or empty.
unfoldable pub first_status : Option Text → Text
first_status none = []
first_status (some t) = t

unfoldable pub vault_rows :
    (Text → Text) → Option (List VaultSummary) → (status search : Text) → List VaultSummary
unfolding vault_listed needle_of
vault_rows lower none status search = []
vault_rows lower (some vaults) status search =
    keep (vault_listed lower status (needle_of lower search)) vaults

-- The filter of the agents, whose `ALL` is no status.
unfoldable pub is_other_agent : Text → Text → Bool
unfolding text_eq
is_other_agent filter status = not (text_eq filter (codes "ALL")) && not (text_eq status filter)

unfoldable pub agent_fields : AgentSummary → List Text
agent_fields a = a.name ∷ a.agent_id ∷ a.model_name ∷ a.owner_email ∷ []

unfoldable pub agent_listed : (Text → Text) → Text → Text → AgentSummary → Bool
unfolding is_other_agent is_found agent_fields
agent_listed lower filter needle a =
    if is_other_agent filter a.status then false else is_found lower needle (agent_fields a)

unfoldable pub agent_rows :
    (Text → Text) → Option (List AgentSummary) → (filter search : Text) → List AgentSummary
unfolding agent_listed needle_of
agent_rows lower none filter search = []
agent_rows lower (some agents) filter search =
    keep (agent_listed lower filter (needle_of lower search)) agents

-- The transactions are filtered by status on the server, and searched here.
unfoldable pub transaction_query : Text → Query
transaction_query [] = transactions (record { status = none; vault_id = none; agent_id = none })
transaction_query (c ∷ s) =
    transactions (record { status = some (c ∷ s); vault_id = none; agent_id = none })

unfoldable pub transaction_fields : TransactionSummary → List Text
transaction_fields t = t.proposal_id ∷ t.agent_name ∷ t.vendor_name ∷ t.purpose_code ∷ []

unfoldable pub transaction_rows :
    (Text → Text) → Option (List TransactionSummary) → (search : Text) → List TransactionSummary
unfolding is_found transaction_fields needle_of
transaction_rows lower none search = []
transaction_rows lower (some txns) search =
    keep (λ t. is_found lower (needle_of lower search) (transaction_fields t)) txns
