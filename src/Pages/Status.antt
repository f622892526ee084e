-- ===== src/Pages/Status.antt =====
-- frontend/components/data/status.tsx: the colour and the label of a backend code. `upper` is
-- `toUpperCase`, whose tables are those of Unicode.
pub mod Laws
use fintech_innova_hack.Prelude.{
  ℕ, ◌≡◌, refl, ◌≢◌, Option, none, some, List, [], ◌∷◌, ◌++◌, All, arith, if◌then◌else◌, ◌⊎◌, inl,
  inr, Bool-cases,
}
use fintech_innova_hack.Prelude.Text.{Text, codes, text_eq}
use fintech_innova_hack.Prelude.Text.Laws.{text_eq_iff}
use fintech_innova_hack.Format.Labels.{humanise}
use fintech_innova_hack.Format.Labels.Laws.{IsWordUnit, humanise-IsWordUnit}

pub data BadgeTone : Type 0 where
  neutral positive caution critical info outline : BadgeTone

pub tones : List (Text × BadgeTone)
tones =
    (codes "ACTIVE", positive)
    ∷ (codes "FROZEN", caution)
    ∷ (codes "REVOKED", critical)
    ∷ (codes "DRAFT", neutral)
    ∷ (codes "IDENTITY_VERIFIED", info)
    ∷ (codes "EVIDENCE_READY", info)
    ∷ (codes "UNDERWRITING", info)
    ∷ (codes "POLICY_EVALUATED", info)
    ∷ (codes "HUMAN_REVIEW_REQUIRED", caution)
    ∷ (codes "APPROVED", positive)
    ∷ (codes "REJECTED", critical)
    ∷ (codes "VAULT_CREATED", positive)
    ∷ (codes "DISBURSEMENT_ENABLED", positive)
    ∷ (codes "CREATED", info)
    ∷ (codes "SPENDING", info)
    ∷ (codes "EXPIRED", caution)
    ∷ (codes "TASK_COMPLETED", positive)
    ∷ (codes "TASK_FAILED", critical)
    ∷ (codes "REVENUE_RECEIVED", info)
    ∷ (codes "REPAID", positive)
    ∷ (codes "PARTIALLY_REPAID", caution)
    ∷ (codes "DEFAULTED", critical)
    ∷ (codes "CLOSED", neutral)
    ∷ (codes "PROPOSED", neutral)
    ∷ (codes "EXECUTED", positive)
    ∷ (codes "DENIED", critical)
    ∷ (codes "ALLOW", positive)
    ∷ (codes "DENY", critical)
    ∷ (codes "SETTLED", positive)
    ∷ (codes "PENDING", neutral)
    ∷ (codes "OPEN", info)
    ∷ []

pub labels : List (Text × Text)
labels =
    (codes "HUMAN_REVIEW_REQUIRED", codes "Human review")
    ∷ (codes "DISBURSEMENT_ENABLED", codes "Disbursement enabled")
    ∷ (codes "IDENTITY_VERIFIED", codes "Identity verified")
    ∷ (codes "EVIDENCE_READY", codes "Evidence ready")
    ∷ (codes "POLICY_EVALUATED", codes "Policy evaluated")
    ∷ (codes "VAULT_CREATED", codes "Vault created")
    ∷ (codes "REVENUE_RECEIVED", codes "Revenue received")
    ∷ (codes "PARTIALLY_REPAID", codes "Partly repaid")
    ∷ (codes "TASK_COMPLETED", codes "Task completed")
    ∷ (codes "TASK_FAILED", codes "Task failed")
    ∷ (codes "ALLOW", codes "Allowed")
    ∷ (codes "DENY", codes "Denied")
    ∷ (codes "PROMPT_INJECTION_SUSPECTED", codes "Prompt injection suspected")
    ∷ (
      codes "PROMPT_INJECTION_SUSPECTED_UNCORROBORATED",
      codes "Prompt injection — model only, unconfirmed",
    )
    ∷ (codes "INSTRUCTION_IN_EVIDENCE", codes "Instruction in evidence")
    ∷ (
      codes "INSTRUCTION_IN_EVIDENCE_UNCORROBORATED",
      codes "Instruction in evidence — unconfirmed",
    )
    ∷ []

-- `record[key]`
unfoldable pub entry_at : {A : Type 0} → List (Text × A) → Text → Option A
unfolding text_eq
entry_at [] key = none
entry_at ((k, v) ∷ rest) key = if text_eq k key then some v else entry_at rest key

tone_or_neutral : Option BadgeTone → BadgeTone
tone_or_neutral none = neutral
tone_or_neutral (some t) = t

unfoldable pub status_tone : (Text → Text) → Option Text → BadgeTone
unfolding tones entry_at tone_or_neutral
status_tone upper none = neutral
status_tone upper (some []) = neutral
status_tone upper (some (c ∷ s)) = tone_or_neutral (entry_at tones (upper (c ∷ s)))

label_or_words : Text → Option Text → Text
unfolding humanise
label_or_words key none = humanise (some key)
label_or_words key (some t) = t

unfoldable pub status_label : (Text → Text) → Option Text → Text
unfolding labels entry_at label_or_words
status_label upper none = codes "Unknown"
status_label upper (some []) = codes "Unknown"
status_label upper (some (c ∷ s)) = label_or_words (upper (c ∷ s)) (entry_at labels (upper (c ∷ s)))

served_or : Option Text → Text → Text
served_or none other = other
served_or (some t) other = t

-- The map of labels that the API serves: `labels.data?.audit[type] ?? statusLabel(type)`.
unfoldable pub label_of_event : (Text → Text) → Option (List (Text × Text)) → Text → Text
unfolding entry_at status_label served_or
label_of_event upper none type = status_label upper (some type)
label_of_event upper (some served) type =
    served_or (entry_at served type) (status_label upper (some type))
