-- ===== src/Forms/Application/Examples.antt =====
-- An application that the API accepts.
use fintech_innova_hack.Prelude.{◌≡◌, refl, true, false, none, some, [], ◌∷◌, length}
use fintech_innova_hack.Prelude.Text.{codes, text_eq}
use fintech_innova_hack.Json.{str, obj, end, entry}
use fintech_innova_hack.Forms.Service.{Service}
use fintech_innova_hack.Forms.Application.{Fields, ready, agent_of}
use fintech_innova_hack.Forms.Application.Writes.{submit}
use fintech_innova_hack.Forms.Application.Writes.Requested.{IsRequested, submit-IsRequested}

abbrev service : Service
service = record {
  answer = λ sent call.
      some (record {
        status = 200;
        content_type = some (codes "application/json");
        body = codes "{}";
      });
  parse_json = λ body. some (
      obj (
        entry (codes "task_id") (str (codes "tsk_1"))
          (entry (codes "application_id") (str (codes "app_1")) end)));
  print_pairs = λ pairs. [];
  fault = codes "fault";
  coerce = λ v. codes "undefined";
}

abbrev fields : Fields
fields = record {
  agent_id = codes "agt_1";
  title = codes "Label data";
  description = [];
  category = codes "DATA";
  requested = codes "2500";
  expected_cost = codes "2400";
  expected_revenue = codes "4000";
  duration_hours_text = codes "24";
  reserve_cap = codes "500";
  owner_cap = codes "10000";
  owner_authorised = true;
  vendor_ids = [];
  drafts =
      record { key = 1; evidence_type = codes "TASK_ORDER"; content_text = codes "Order 7" }
      ∷ record { key = 2; evidence_type = codes "TASK_ORDER"; content_text = codes "Order 8" }
      ∷ [];
}

submitted : (submit service fields [] []).application ≡ some (some (str (codes "app_1")))
unfolding submit text_eq
submitted = refl

submit-IsRequested_example :
    IsRequested service fields [] (submit service fields [] []) (some (str (codes "app_1")))
submit-IsRequested_example =
    submit-IsRequested service fields [] [] (some (str (codes "app_1"))) submitted

five_calls : length (submit service fields [] []).sent ≡ 5
unfolding submit text_eq
five_calls = refl

unauthorised : ready (record fields { owner_authorised = false }) ≡ false
unfolding ready
unauthorised = refl

preset : agent_of [] (some (codes "agt_9")) none ≡ codes "agt_9"
unfolding agent_of
preset = refl
