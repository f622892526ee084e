-- ===== src/Forms/Agent/Examples.antt =====
-- A registration that the API accepts.
use fintech_innova_hack.Prelude.{◌≡◌, refl, true, false, some, [], ◌∷◌}
use fintech_innova_hack.Prelude.Text.{codes, text_eq}
use fintech_innova_hack.Json.{bool, str, obj, end, entry}
use fintech_innova_hack.Forms.Service.{Service}
use fintech_innova_hack.Forms.Agent.{Fields, ready, submit}
use fintech_innova_hack.Forms.Agent.Registration.{IsRegistered, submit-IsRegistered}

abbrev service : Service
service = record {
  answer = λ sent call.
      some (record {
        status = 200;
        content_type = some (codes "application/json");
        body = codes "{}";
      });
  parse_json = λ body. some (
      obj (entry (codes "agent_id") (str (codes "agt_1")) (entry (codes "valid") (bool true) end)));
  print_pairs = λ pairs. [];
  fault = codes "fault";
  coerce = λ v. codes "undefined";
}

abbrev fields : Fields
fields = record {
  name = codes "Buyer";
  provider = codes "mistral";
  model_name = codes "mistral-small";
  version_hash = codes "sha256:1";
  purpose = codes "Buys data";
  categories = codes "DATA" ∷ [];
  borrowing_limit = codes "2500";
  per_transaction = codes "600";
  vendor_ids = [];
  ttl_hours = codes "24";
}

registered : (submit service fields []).registered ≡ some (some (str (codes "agt_1")))
unfolding submit text_eq
registered = refl

submit-IsRegistered_example :
    IsRegistered service fields [] (submit service fields []) (some (str (codes "agt_1")))
submit-IsRegistered_example =
    submit-IsRegistered service fields [] (some (str (codes "agt_1"))) registered

-- A payment above the authority, and hours beyond a day.
overdrawn : ready (record fields { per_transaction = codes "2500.01" }) ≡ false
unfolding ready
overdrawn = refl

too_long : ready (record fields { ttl_hours = codes "25" }) ≡ false
unfolding ready
too_long = refl
