-- ===== src/Pages/Examples/Workspace.antt =====
-- The lists, the steps, the totals and the links, on a few records.
use mathlib.Core.List.{Memᴰ}
use fintech_innova_hack.Prelude.{
  ◌≡◌, refl, ◌↔◌, ◌⊎◌, true, false, not, ◌&&◌, ◌||◌, none, some, List, [], ◌∷◌,
}
use fintech_innova_hack.Prelude.Text.{Text, codes, to_lower}
use fintech_innova_hack.Prelude.Int.{pos, ◌+ℤ◌}
use fintech_innova_hack.Types.Credit.{CreditApplicationSummary}
use fintech_innova_hack.Types.Transactions.{RepaymentRow}
use fintech_innova_hack.Pages.Search.{needle_of, Finds}
use fintech_innova_hack.Pages.Lists.{application_rows}
use fintech_innova_hack.Pages.Lists.Stages.{stage_of, application_rows-stage_of}
use fintech_innova_hack.Pages.Repayments.{totals_of, Totals}
use fintech_innova_hack.Pages.Start.{
  Workspace, register_card, apply_card, decide_card, repay_card, cards_in_order, is_first_run,
  badge_of, waiting_badge, done_badge,
}
use fintech_innova_hack.Pages.Risk.{subject_href, severity_tone}
use fintech_innova_hack.Pages.Status.{caution, neutral, status_tone, label_of_event}
use fintech_innova_hack.Pages.Vault.{can_freeze, can_close}

abbrev application : Text → Text → CreditApplicationSummary
application id status = record {
  application_id = id;
  agent_id = codes "agt_1";
  agent_name = codes "Translator";
  task_id = codes "tsk_1";
  task_title = codes "Product manual";
  status = status;
  currency = codes "INR";
  requested_minor = pos 240000;
  approved_limit_minor = none;
  decision = none;
  reason_codes = [];
  receipt_hash = none;
  expected_revenue_minor = pos 400000;
  expected_cost_minor = pos 240000;
  expected_margin_minor = pos 160000;
  requested_duration_hours = pos 48;
  pd_ppm = none;
  expected_loss_minor = none;
  human_review = none;
  vault_id = none;
  created_at = none;
  updated_at = none;
}

abbrev funded : CreditApplicationSummary
funded = application (codes "app_1") (codes "VAULT_CREATED")

abbrev fresh_one : CreditApplicationSummary
fresh_one = application (codes "app_2") (codes "UNDERWRITING")

abbrev pipeline : List CreditApplicationSummary
pipeline = funded ∷ fresh_one ∷ []

application_rows-stage_of_example :
    Memᴰ funded (application_rows to_lower (some pipeline) (codes "APPROVED") (codes " MANUAL "))
    ↔ (Memᴰ funded pipeline
        × ((codes "APPROVED" ≡ []) ⊎ (codes "APPROVED" ≡ stage_of (codes "VAULT_CREATED")))
        × Finds to_lower
            (needle_of to_lower (codes " MANUAL "))
            (codes "app_1" ∷ codes "Translator" ∷ codes "Product manual" ∷ []))
application_rows-stage_of_example =
    application_rows-stage_of to_lower pipeline (codes "APPROVED") (codes " MANUAL ") funded
      (Memᴰ.tail (Memᴰ.tail (Memᴰ.tail (Memᴰ.head refl))))

-- An application that became a vault is listed as approved, and one that is being underwritten as in
-- flight.
listed_approved :
    application_rows to_lower (some pipeline) (codes "APPROVED") (codes " MANUAL ") ≡ funded ∷ []
unfolding application_rows to_lower
listed_approved = refl

listed_in_flight : application_rows to_lower (some pipeline) (codes "IN_FLIGHT") [] ≡ fresh_one ∷ []
unfolding application_rows to_lower
listed_in_flight = refl

abbrev repayment : RepaymentRow
repayment = record {
  repayment_id = codes "rep_1";
  vault_id = codes "vlt_1";
  agent_id = codes "agt_1";
  agent_name = codes "Translator";
  task_title = codes "Product manual";
  kind_ = codes "STANDARD";
  allocations = [];
  revenue_minor = pos 400000;
  principal_minor = pos 240000;
  fee_minor = pos 4800;
  reserve_minor = pos 2000;
  owner_minor = pos 153200;
  loss_minor = pos 0;
  vault_status = codes "REPAID";
  outstanding_minor = pos 0;
  journal_transaction_id = none;
  status = codes "SETTLED";
  created_at = none;
}

abbrev twice : Totals
twice = record {
  revenue = pos 800000;
  principal = pos 480000;
  fee = pos 9600;
  reserve = pos 4000;
  owner = pos 306400;
  loss = pos 0;
}

added : totals_of (some (repayment ∷ repayment ∷ [])) ≡ some twice
unfolding totals_of ◌+ℤ◌
added = refl

abbrev empty_workspace : Workspace
empty_workspace = record { agents = some []; applications = some []; repayments = none }

abbrev begun : Workspace
begun = record { agents = some []; applications = some pipeline; repayments = none }

cards_in_order_example :
    ((apply_card begun).disabled ≡ not (register_card begun).done)
    × ((decide_card begun).disabled ≡ not (apply_card begun).done)
    × (((repay_card begun).disabled || ((decide_card begun).done && (apply_card begun).done))
        ≡ true)
    × ((not (decide_card begun).done || (apply_card begun).done) ≡ true)
cards_in_order_example = cards_in_order begun

first_run : is_first_run empty_workspace ≡ true
unfolding is_first_run
first_run = refl

waiting : badge_of false (decide_card empty_workspace) ≡ waiting_badge
unfolding badge_of decide_card
waiting = refl

approved_here : badge_of false (decide_card begun) ≡ done_badge
unfolding badge_of decide_card
approved_here = refl

linked :
    subject_href (some (codes "PROPOSAL")) (some (codes "prp_9"))
    ≡ some (codes "/transactions/prp_9")
unfolding subject_href
linked = refl

unknown_severity : severity_tone (codes "SEVERE") ≡ neutral
unfolding severity_tone
unknown_severity = refl

frozen : (can_freeze (codes "FROZEN") ≡ false) × (can_close (codes "REPAID") ≡ true)
unfolding can_freeze can_close
frozen = (refl, refl)

partly : status_tone (λ s. s) (some (codes "PARTIALLY_REPAID")) ≡ caution
unfolding status_tone
partly = refl

-- Where the labels that the API serves have no entry, the words of the code stand.
served :
    label_of_event
      (λ s. s)
      (some ((codes "VAULT_OPENED", codes "Vault opened") ∷ []))
      (codes "SPEND_EXECUTED")
    ≡ codes "Spend executed"
unfolding label_of_event
served = refl
