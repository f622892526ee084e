-- ===== src/Forms/Underwriting/Examples.antt =====
-- A vault that is created, and the caps of an engine.

use fintech_innova_hack.Prelude.{◌≡◌, refl, true, false, none, some, []}
use fintech_innova_hack.Prelude.Text.{codes, text_eq}
use fintech_innova_hack.Prelude.Int.{pos}
use fintech_innova_hack.Json.{str, obj, end, entry}
use fintech_innova_hack.Types.Underwriting.{DeterministicEngine, DeterministicEngineCaps}
use fintech_innova_hack.Forms.Service.{Service}
use fintech_innova_hack.Forms.Underwriting.{Cap, Panel, binding, fund, run, is_funded}
use fintech_innova_hack.Forms.Underwriting.Laws.{IsFunded, fund-IsFunded}

abbrev caps : DeterministicEngineCaps
caps = record {
  requested_minor = pos 250000;
  available_exposure_minor = pos 500000;
  revenue_advance_cap_minor = pos 240000;
  task_cost_cap_minor = pos 240000;
  policy_cap_minor = pos 1000000;
}

abbrev engine : DeterministicEngine
engine = record {
  decision = codes "APPROVE";
  approved_limit_minor = pos 240000;
  caps = caps;
  reason_codes = [];
  receipt_hash = none;
  created_at = none;
  pd_ppm = pos 0;
  lgd_ppm = pos 0;
  ead_minor = pos 0;
  expected_loss_minor = pos 0;
  model_name = [];
  is_simulation = true;
  features = record {
    tasks_total = pos 0;
    tasks_succeeded = pos 0;
    task_success_rate_ppm = pos 0;
    repayments_total = pos 0;
    repaid_in_full = pos 0;
    repayment_rate_ppm = pos 0;
    total_defaulted_minor = pos 0;
    current_outstanding_minor = pos 0;
    policy_violation_count = pos 0;
    blocked_spend_attempts = pos 0;
    identity_age_days = pos 0;
    is_first_credit = true;
  };
}

-- Of two that are equal the first is shown.
abbrev advance : Cap
advance = record { name = codes "the revenue advance cap"; amount = pos 240000 }

bound : binding (some engine) ≡ some advance
unfolding binding
bound = refl

abbrev service : Service
service = record {
  answer = λ sent call.
      some (record {
        status = 201;
        content_type = some (codes "application/json");
        body = codes "{}";
      });
  parse_json = λ body. some (obj (entry (codes "vault_id") (str (codes "vlt_1")) end));
  print_pairs = λ pairs. [];
  fault = codes "fault";
  coerce = λ v. codes "undefined";
}

abbrev panel : Panel
panel = record { sent = []; error = none; refreshed = false; went_to = none }

funded : (fund service (codes "app_1") (codes "600") panel).went_to ≡ some (codes "/vaults/vlt_1")
unfolding fund text_eq
funded = refl

fund-IsFunded_example :
    IsFunded service
      (codes "app_1")
      (codes "600")
      (codes "/vaults/vlt_1")
      panel
      (fund service (codes "app_1") (codes "600") panel)
fund-IsFunded_example =
    fund-IsFunded service (codes "app_1") (codes "600") (codes "/vaults/vlt_1") panel refl funded

unfunded : (fund service (codes "app_1") (codes "0") panel).sent ≡ []
unfolding fund
unfunded = refl

ran : (run service (codes "app_1") panel).refreshed ≡ true
unfolding run
ran = refl

not_funded : is_funded (codes "APPROVED") ≡ false
unfolding is_funded
not_funded = refl
