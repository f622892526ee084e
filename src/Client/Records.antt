-- ===== src/Client/Records.antt =====
-- The operations of frontend/lib/api.ts that name one record: each is called with the record's
-- identifier, and those that write with a body, which is sent as it is.
use fintech_innova_hack.Prelude.{Option, none, some, [], ◌++◌}
use fintech_innova_hack.Prelude.Text.{Text, codes}
use fintech_innova_hack.Json.{Json, str, obj, end, entry}
use fintech_innova_hack.Server.Http.{Call}
use fintech_innova_hack.Client.{base, browser_call}
use fintech_innova_hack.Client.Uri.{encode_uri_component}

pub data Operation : Type 0 where
  get_agent_profile : Operation
  verify_passport : Operation
  list_evidence : Operation
  get_underwriting : Operation
  review_application : Operation
  issue_passport : Operation
  add_evidence : Operation
  create_revenue_mandate : Operation
  evaluate_application : Operation
  get_vault_detail : Operation
  freeze_vault : Operation
  close_vault : Operation
  get_transaction : Operation
  receive_revenue : Operation
  simulate_failure : Operation
  get_decision_script : Operation
  fetch_decision_narration : Operation

-- The path, once the identifier is encoded.
unfoldable pub path : Operation → Text → Text
path get_agent_profile id = codes "/v1/agents/" ++ id ++ codes "/profile"
path verify_passport id = codes "/v1/agents/" ++ id ++ codes "/passport/verify"
path list_evidence id = codes "/v1/tasks/" ++ id ++ codes "/evidence"
path get_underwriting id = codes "/v1/credit-applications/" ++ id ++ codes "/underwriting"
path review_application id = codes "/v1/credit-applications/" ++ id ++ codes "/review"
path issue_passport id = codes "/v1/agents/" ++ id ++ codes "/passport"
path add_evidence id = codes "/v1/tasks/" ++ id ++ codes "/evidence"
path create_revenue_mandate id = codes "/v1/tasks/" ++ id ++ codes "/revenue-mandate"
path evaluate_application id = codes "/v1/credit-applications/" ++ id ++ codes "/evaluate"
path get_vault_detail id = codes "/v1/vaults/" ++ id ++ codes "/detail"
path freeze_vault id = codes "/v1/vaults/" ++ id ++ codes "/freeze"
path close_vault id = codes "/v1/vaults/" ++ id ++ codes "/close"
path get_transaction id = codes "/v1/transactions/" ++ id
path receive_revenue id = codes "/v1/vaults/" ++ id ++ codes "/revenue"
path simulate_failure id = codes "/v1/vaults/" ++ id ++ codes "/simulate-failure"
path get_decision_script id = codes "/v1/voice/decisions/" ++ id ++ codes "/script"
path fetch_decision_narration id = codes "/v1/voice/decisions/" ++ id

unfoldable pub method_of : Operation → Text
method_of get_agent_profile = codes "GET"
method_of verify_passport = codes "GET"
method_of list_evidence = codes "GET"
method_of get_underwriting = codes "GET"
method_of review_application = codes "POST"
method_of issue_passport = codes "POST"
method_of add_evidence = codes "POST"
method_of create_revenue_mandate = codes "POST"
method_of evaluate_application = codes "POST"
method_of get_vault_detail = codes "GET"
method_of freeze_vault = codes "POST"
method_of close_vault = codes "POST"
method_of get_transaction = codes "GET"
method_of receive_revenue = codes "POST"
method_of simulate_failure = codes "POST"
method_of get_decision_script = codes "GET"
method_of fetch_decision_narration = codes "POST"

-- The narration is fetched without `request`: it sets no header and sends no body.
narration_call : Text → Call
narration_call to = record { method = codes "POST"; url = base ++ to; headers = []; body = none }

call_of : Operation → Text → Option Json → Call
unfolding narration_call
call_of fetch_decision_narration to body = narration_call to
call_of op to body = browser_call (method_of op) to body

called : Operation → Option Json → Option Text → Option Call
unfolding call_of
called op body none = none
called op body (some id) = some (call_of op (path op id) body)

-- The call that an operation makes; `none` where `encodeURIComponent` throws.
unfoldable pub operation_call : Operation → Text → Option Json → Option Call
unfolding called encode_uri_component
operation_call op id body = called op body (encode_uri_component id)

-- The body of `freezeVault`.
unfoldable pub freeze_body : Text → Json
freeze_body reason = obj (entry (codes "reason") (str reason) end)
