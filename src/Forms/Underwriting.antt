-- ===== src/Forms/Underwriting.antt =====
-- frontend/components/onboarding/underwriting-summary.tsx: the cap that bound, and the two actions.
pub mod Laws
mod Examples
use fintech_innova_hack.Prelude.{
  ℕ, ◌+◌, Bool, true, false, not, ◌&&◌, Option, none, some, List, [], ◌∷◌, ◌++◌, any, ltb,
  if◌then◌else◌,
}
use fintech_innova_hack.Prelude.Text.{Text, codes, text_eq}
use fintech_innova_hack.Prelude.Int.{ℤ, pos_part, neg_part}
use fintech_innova_hack.Json.{Json, str, obj, end, entry}
use fintech_innova_hack.Format.Rupees.{rupee_input_to_minor}
use fintech_innova_hack.Types.Scalars.{Money}
use fintech_innova_hack.Types.Underwriting.{DeterministicEngine, DeterministicEngineCaps}
use fintech_innova_hack.Server.Http.{Call}
use fintech_innova_hack.Client.{Answer, value, failure, receive}
use fintech_innova_hack.Client.Records.{operation_call, evaluate_application}
use fintech_innova_hack.Client.Endpoints.{create_vault}
use fintech_innova_hack.Forms.Service.{
  Service, browser_at, endpoint_call, property, as_text, natural,
}

-- `x < y`
unfoldable pub less : ℤ → ℤ → Bool
less x y = ltb (pos_part x + neg_part y) (pos_part y + neg_part x)

pub record Cap : Type 0 where
  pub name : Text
  pub amount : Money

unfoldable pub other_caps : DeterministicEngineCaps → List Cap
other_caps c =
    record { name = codes "remaining owner exposure"; amount = c.available_exposure_minor }
    ∷ record { name = codes "the revenue advance cap"; amount = c.revenue_advance_cap_minor }
    ∷ record { name = codes "the task cost cap"; amount = c.task_cost_cap_minor }
    ∷ record { name = codes "the policy cap"; amount = c.policy_cap_minor }
    ∷ []

abbrev pub requested_cap : DeterministicEngineCaps → Cap
requested_cap c = record { name = codes "the amount requested"; amount = c.requested_minor }

-- `reduce`, from the lowest so far
unfoldable pub lowest_of : Cap → List Cap → Cap
unfolding less
lowest_of lowest [] = lowest
lowest_of lowest (e ∷ es) = lowest_of (if less e.amount lowest.amount then e else lowest) es

unfoldable pub binding : Option DeterministicEngine → Option Cap
unfolding lowest_of other_caps
binding none = none
binding (some engine) = some (lowest_of (requested_cap engine.caps) (other_caps engine.caps))

unfoldable pub can_run : Text → Bool
unfolding text_eq
can_run status =
    any (text_eq status) (
      codes "DRAFT"
      ∷ codes "IDENTITY_VERIFIED"
      ∷ codes "EVIDENCE_READY"
      ∷ codes "UNDERWRITING"
      ∷ [])

unfoldable pub can_fund : Text → Bool
unfolding text_eq
can_fund status = text_eq status (codes "APPROVED")

-- Whether the text says that there is a vault already.
unfoldable pub is_funded : Text → Bool
unfolding text_eq can_fund
is_funded status =
    any (text_eq status)
      (codes "APPROVED" ∷ codes "VAULT_CREATED" ∷ codes "DISBURSEMENT_ENABLED" ∷ [])
    && not (can_fund status)

-- The calls made, the error shown, whether the cache was dropped and the page read again, and where the
-- router was sent.
pub record Panel : Type 0 where
  pub sent : List Call
  pub error : Option Text
  pub refreshed : Bool
  pub went_to : Option Text

abbrev run_failed : Text
run_failed = codes "Underwriting could not be run for this application."

abbrev fund_failed : Text
fund_failed = codes "The credit vault could not be created."

after_run : Panel → Answer → Panel
after_run p (value v) = record p { refreshed = true }
after_run p (failure e) = record p { error = some e.detail }

-- Without a call where the encoding of the identifier throws.
run_call : Service → Panel → Option Call → Panel
unfolding after_run receive
run_call s p none = record p { error = some run_failed }
run_call s p (some call) =
    after_run (record p { sent = p.sent ++ call ∷ [] })
      (receive (browser_at s p.sent) (s.answer p.sent call))

unfoldable pub run : Service → Text → Panel → Panel
unfolding run_call operation_call
run s id p = run_call s (record p { error = none }) (operation_call evaluate_application id none)

unfoldable pub vault_body : Text → ℕ → Json
unfolding natural
vault_body id per = obj (
    entry (codes "application_id") (str id)
      (entry (codes "per_transaction_limit_minor") (natural per) end))

-- `router.push`, unless reading the identifier throws; the cache has been dropped by then.
pub go_to : Service → Panel → Option (Option Json) → Panel
unfolding as_text
go_to s p none = record p { error = some fund_failed }
go_to s p (some id) = record p { went_to = some (codes "/vaults/" ++ as_text s id) }

pub after_fund : Service → Panel → Answer → Panel
unfolding go_to property
after_fund s p (value v) = go_to s (record p { refreshed = true }) (property v (codes "vault_id"))
after_fund s p (failure e) = record p { error = some e.detail }

abbrev pub vault_call : Text → ℕ → Call
vault_call id per = endpoint_call create_vault (some (vault_body id per))

pub fund_with : Service → Text → Panel → Option ℕ → Panel
unfolding after_fund receive
fund_with s id p none = record p {
  error = some (codes "Enter a per-payment ceiling in rupees, above zero.");
}
fund_with s id p (some per) =
    after_fund s (record p { error = none; sent = p.sent ++ vault_call id per ∷ [] })
      (receive (browser_at s p.sent) (s.answer p.sent (vault_call id per)))

unfoldable pub fund : Service → Text → Text → Panel → Panel
unfolding fund_with rupee_input_to_minor
fund s id per_transaction p = fund_with s id p (rupee_input_to_minor per_transaction)

pub data Tone : Type 0 where
  positive critical caution outline : Tone

unfoldable pub decision_tone : Text → Tone
unfolding text_eq
decision_tone status =
    if any (text_eq status)
      (codes "APPROVED" ∷ codes "VAULT_CREATED" ∷ codes "DISBURSEMENT_ENABLED" ∷ [])
    then positive
    else if text_eq status (codes "REJECTED")
    then critical
    else if text_eq status (codes "HUMAN_REVIEW_REQUIRED")
    then caution
    else outline
