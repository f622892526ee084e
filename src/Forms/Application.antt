-- ===== src/Forms/Application.antt =====
-- frontend/components/onboarding/new-application.tsx: the agents that may be chosen, and what the form
-- for a credit application asks of its fields.
pub mod Writes
pub mod Laws
mod Examples
use fintech_innova_hack.Prelude.{
  ℕ, Bool, true, false, not, ◌&&◌, Option, none, some, List, [], ◌∷◌, any, keep, ltb, if◌then◌else◌,
  length,
}
use fintech_innova_hack.Prelude.Text.{Text, codes, text_eq, trim}
use fintech_innova_hack.Format.Rupees.{rupee_input_to_minor}
use fintech_innova_hack.Types.Agents.{AgentSummary}
use fintech_innova_hack.Forms.Service.{parse_int}
use fintech_innova_hack.Forms.Checks.{when, or_when, is_none, is_nil, out_of_hours, no_problem}
use fintech_innova_hack.Forms.Drafts.{Draft}

-- An agent that can hold credit.
unfoldable pub is_eligible : AgentSummary → Bool
unfolding text_eq
is_eligible a = a.has_passport && text_eq a.status (codes "ACTIVE")

-- `agents.data` is undefined until the agents are loaded.
unfoldable pub eligible : Option (List AgentSummary) → List AgentSummary
unfolding is_eligible
eligible none = []
eligible (some agents) = keep is_eligible agents

first_id : List AgentSummary → Text
first_id [] = []
first_id (a ∷ rest) = a.agent_id

preset_else : Option Text → Text → Text
preset_else (some preset) other = preset
preset_else none other = other

-- The agent applied for: the one chosen, else the preset one, else the first eligible one.
unfoldable pub agent_of : Text → Option Text → Option (List AgentSummary) → Text
unfolding first_id preset_else eligible
agent_of chosen preset agents =
    if not (is_nil chosen) then chosen else preset_else preset (first_id (eligible agents))

abbrev pub max_duration_hours : ℕ
max_duration_hours = 720

abbrev pub max_evidence_chars : ℕ
max_evidence_chars = 20000

-- `agent_id` is the agent that is derived: chosen, preset or the first eligible.
pub record Fields : Type 0 where
  pub agent_id : Text
  pub title : Text
  pub description : Text
  pub category : Text
  pub requested : Text
  pub expected_cost : Text
  pub expected_revenue : Text
  pub duration_hours_text : Text
  pub reserve_cap : Text
  pub owner_cap : Text
  pub owner_authorised : Bool
  pub vendor_ids : List Text
  pub drafts : List Draft

abbrev pub is_blank : Draft → Bool
is_blank d = is_nil (trim d.content_text)

abbrev pub is_long : Draft → Bool
is_long d = ltb max_evidence_chars (length d.content_text)

-- Each field's key, with the sentence under it, if there is one. A later sentence on the evidence
-- takes the place of an earlier one.
unfoldable pub problems : Fields → List (Text × Option Text)
unfolding rupee_input_to_minor trim parse_int out_of_hours
problems f =
    (
      codes "agentId",
      when (is_nil f.agent_id) (codes "Choose an agent holding a verified passport."),
    )
    ∷ (codes "title", when (ltb (length (trim f.title)) 3) (codes "Give the task a title."))
    ∷ (
      codes "requested",
      when (is_none (rupee_input_to_minor f.requested))
          (codes "Enter the amount in rupees, above zero."),
    )
    ∷ (
      codes "expectedCost",
      when (is_none (rupee_input_to_minor f.expected_cost))
          (codes "Enter the expected cost in rupees."),
    )
    ∷ (
      codes "expectedRevenue",
      when (is_none (rupee_input_to_minor f.expected_revenue))
          (codes "Enter the expected revenue in rupees."),
    )
    ∷ (
      codes "reserveCap",
      when (is_none (rupee_input_to_minor f.reserve_cap))
          (codes "Enter the reserve cap in rupees."),
    )
    ∷ (
      codes "ownerCap",
      when (is_none (rupee_input_to_minor f.owner_cap))
          (codes "Enter the owner's exposure cap in rupees."),
    )
    ∷ (
      codes "duration",
      when (out_of_hours max_duration_hours (parse_int f.duration_hours_text))
          (codes "Between 1 and 720 hours."),
    )
    ∷ (
      codes "ownerAuthorised",
      when (not f.owner_authorised) (codes "The owner must authorise this request."),
    )
    ∷ (
      codes "evidence",
      or_when (any is_long f.drafts) (codes "Evidence is limited to 20,000 characters each.") (
          or_when (any is_blank f.drafts) (codes "Every evidence entry needs text, or remove it.")
            (when (is_nil f.drafts) (codes "Attach at least one piece of evidence."))),
    )
    ∷ []

unfoldable pub ready : Fields → Bool
unfolding problems
ready f = no_problem (problems f)
