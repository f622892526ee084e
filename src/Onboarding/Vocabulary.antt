-- ===== src/Onboarding/Vocabulary.antt =====
-- The closed lists of frontend/lib/onboarding.ts.
use Prim.Native.String.{String}
use mathlib.Core.List.{Memᴰ}
use fintech_innova_hack.Prelude.{
  ◌≡◌, refl, ◌≢◌, Option, none, some, List, [], ◌∷◌, if◌then◌else◌, Bool, true, false, ◌&&◌,
  and-eq_true,
}
use fintech_innova_hack.Prelude.Text.{Text, codes, text_eq}

pub record Choice : Type 0 where
  pub value : Text
  pub label : Text
  pub hint : Option Text

hint_codes : Option String → Option Text
hint_codes none = none
hint_codes (some h) = some (codes h)

choice : String → String → Option String → Choice
unfolding hint_codes
choice value label hint = record {
  value = codes value;
  label = codes label;
  hint = hint_codes hint;
}

unfoldable pub evidence_types : List Choice
unfolding choice
evidence_types =
    choice "TASK_ORDER" "Task order" (some "The order or brief the work is being done against.")
    ∷ choice "TASK_CONTRACT" "Task contract" (some "Signed terms covering the engagement.")
    ∷ choice "INVOICE" "Invoice" (some "A bill raised or received for this task.")
    ∷ choice "COST_QUOTE" "Cost quote" (some "What the inputs are expected to cost, per vendor.")
    ∷ choice "PRIOR_TASK_OUTCOME" "Prior task outcome"
        (some "How comparable work by this agent ended.")
    ∷ choice "REPAYMENT_HISTORY" "Repayment history"
        (some "Whether earlier facilities were repaid.")
    ∷ choice "AUTHORIZATION" "Authorization" (some "The owner's written permission to borrow.")
    ∷ choice "VENDOR_INFO" "Vendor information" (some "Who is being paid, and on what terms.")
    ∷ choice "SPENDING_HISTORY" "Spending history"
        (some "Where this agent's money has gone before.")
    ∷ choice "RISK_EVENT" "Risk event" (some "A breach, dispute or failure worth disclosing.")
    ∷ []

unfoldable pub task_categories : List Choice
unfolding choice
task_categories =
    choice "COMPUTE" "Compute" none
    ∷ choice "IMAGE" "Image generation" none
    ∷ choice "DATA" "Data and enrichment" none
    ∷ choice "LOGISTICS" "Logistics" none
    ∷ choice "MARKETING" "Marketing" none
    ∷ []

unfoldable pub model_providers : List Choice
unfolding choice
model_providers =
    choice "ollama" "Self-hosted (Ollama)" none
    ∷ choice "anthropic" "Anthropic" none
    ∷ choice "openai" "OpenAI" none
    ∷ choice "google" "Google" none
    ∷ choice "other" "Other" none
    ∷ []

template : String → String → Text × Text
template kind text = (codes kind, codes text)

unfoldable pub evidence_templates : List (Text × Text)
unfolding template
evidence_templates =
    template "TASK_ORDER"
      "Purchase order SYN-2044 from sandbox customer NorthWind Retail: payment of ₹4,000.00 due on delivery of 800 enriched product listings."
    ∷ template "TASK_CONTRACT"
        "Engagement terms SYN-2044: fixed fee ₹4,000.00, delivery within 48 hours, payment routed to the platform revenue account on acceptance."
    ∷ template "INVOICE"
        "Invoice SYN-INV-118 raised against order SYN-2044 for ₹4,000.00, net 0 days on delivery."
    ∷ template "COST_QUOTE"
        "Cost estimate: compute ₹1,500.00 (vendor_gcp_compute), image generation ₹900.00 (vendor_image_api). Total ₹2,400.00."
    ∷ template "PRIOR_TASK_OUTCOME"
        "Prior task SYN-1987: 600 listings enriched, delivered 6 hours early, accepted without revision. Revenue ₹3,000.00 received in full."
    ∷ template "REPAYMENT_HISTORY"
        "Two prior facilities on this agent, ₹1,000.00 and ₹2,500.00, both repaid in full from task revenue with no reserve draw."
    ∷ template "AUTHORIZATION"
        "Owner authorisation: this agent may borrow up to ₹5,000.00 against catalogue enrichment work, expiring with the current passport."
    ∷ template "VENDOR_INFO"
        "vendor_gcp_compute — compute, settled per usage, active on the platform allowlist. vendor_image_api — image generation, prepaid per call."
    ∷ template "SPENDING_HISTORY"
        "Last 30 days: ₹2,400.00 across two vendors, both on the allowlist. No blocked proposals, no split-payment flags."
    ∷ template "RISK_EVENT"
        "One delivery slipped 4 hours in the prior quarter after an upstream API outage. No financial loss, no reserve draw, no dispute raised."
    ∷ []

-- `EVIDENCE_TEMPLATES[kind]`
unfoldable pub template_of : Text → List (Text × Text) → Option Text
template_of kind [] = none
template_of kind ((k, t) ∷ ts) = if text_eq k kind then some t else template_of kind ts

-- The form's list offers a starting text for this kind.
abbrev pub HasTemplate : Choice → Type 0
HasTemplate c = (t : Text) × (template_of c.value evidence_templates ≡ some t) × (t ≢ [])

is_text : Option Text → Bool
is_text none = false
is_text (some []) = false
is_text (some (c ∷ t)) = true

is_text_sound : (o : Option Text) → is_text o ≡ true → (t : Text) × (o ≡ some t) × (t ≢ [])
unfolding is_text
is_text_sound none h = cc
is_text_sound (some []) h = cc
is_text_sound (some (c ∷ t)) h = (c ∷ t, refl, cc)

have_templates : List Choice → Bool
have_templates [] = true
have_templates (c ∷ cs) = is_text (template_of c.value evidence_templates) && have_templates cs

have_templates_sound :
    (cs : List Choice) (c : Choice) → have_templates cs ≡ true → Memᴰ c cs → HasTemplate c
unfolding have_templates
have_templates_sound [] c h m = elim m [ ]
have_templates_sound (d ∷ cs) c h (Memᴰ.head e) = rw e (
    is_text_sound (template_of d.value evidence_templates)
      (and-eq_true (is_text (template_of d.value evidence_templates)) (have_templates cs) h).0)
have_templates_sound (d ∷ cs) c h (Memᴰ.tail m) =
    have_templates_sound cs c
      (and-eq_true (is_text (template_of d.value evidence_templates)) (have_templates cs) h).1 m

evidence_types_have : have_templates evidence_types ≡ true
unfolding have_templates evidence_types is_text template_of evidence_templates text_eq
evidence_types_have = refl

-- Each evidence kind that the form offers has a template, and it is not empty.
pub evidence_types-HasTemplate : (c : Choice) → Memᴰ c evidence_types → HasTemplate c
evidence_types-HasTemplate c m = have_templates_sound evidence_types c evidence_types_have m
