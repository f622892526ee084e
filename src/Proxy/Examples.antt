-- ===== src/Proxy/Examples.antt =====
-- A deployment, and instances of the theorems on the proxy.

use fintech_innova_hack.Prelude.{
  ℕ, ◌≡◌, refl, ◌↔◌, true, Option, none, some, List, [], ◌∷◌, ◌++◌, All, if◌then◌else◌, ◌==◌,
  length,
}
use fintech_innova_hack.Prelude.Text.{Text, codes, text_eq}
use fintech_innova_hack.Json.{Json, str, obj, end, entry}
use fintech_innova_hack.Server.Backend.{demo_token}
use fintech_innova_hack.Server.Http.{Call, Reply, Platform, State}
use fintech_innova_hack.Server.Session.{client_key, resolve_session}
use fintech_innova_hack.Server.Session.Laws.{IsResolved, resolve_session-IsResolved}
use fintech_innova_hack.Proxy.{Request, refusal, proxy}
use fintech_innova_hack.Proxy.Guards.{IsPermitted, refusal_iff}
use fintech_innova_hack.Proxy.Secrets.{
  HasHeader, IsScenarioCall, HidesSecrets, demo_token_confined, proxy-HidesSecrets,
}

-- An API that refuses the first call, then opens a workspace, then answers with an object.
answer : ℕ → Option Reply
answer n =
    if n == 0
    then some (record { status = 401; content_type = none; body = codes "{}" })
    else if n == 1
    then some (record { status = 200; content_type = none; body = codes "minted" })
    else some (record { status = 200; content_type = none; body = codes "{}" })

parse : Text → Option Json
parse t =
    if text_eq t (codes "minted")
    then some (obj (entry (codes "owner_api_token") (str (codes "tok_2")) end))
    else some (obj (entry (codes "token") (str (codes "tok_2")) end))

abbrev platform : Platform
platform = record {
  api_base = some (codes "https://api/");
  demo = some (codes "demo");
  production = true;
  backend = λ sent call. answer (length sent);
  url_host = λ url. some (codes "web");
  parse_json = parse;
  suffix = λ sent. codes "x1";
}

abbrev scenario_request : Request
scenario_request = record {
  method = codes "POST";
  segments = codes "v1" ∷ codes "demo" ∷ codes "scenarios" ∷ codes "honest" ∷ [];
  search = [];
  body = [];
  origin = some (codes "https://web");
  host = some (codes "web");
  content_type = none;
  forwarded = some (codes "10.0.0.1, 10.0.0.2");
  user_agent = some (codes "ua");
}

abbrev returning : State
returning = record {
  jar = some (codes "tok_1");
  set_cookies = [];
  sent = [];
  mints_in_flight = [];
  next_mint = 0;
}

abbrev reply_401 : Reply
reply_401 = record { status = 401; content_type = none; body = codes "{}" }

abbrev reply_minted : Reply
reply_minted = record { status = 200; content_type = none; body = codes "minted" }

abbrev reply_done : Reply
reply_done = record { status = 200; content_type = none; body = codes "{}" }

scenario_request-IsPermitted : IsPermitted platform scenario_request
unfolding refusal demo_token
scenario_request-IsPermitted = (refusal_iff platform scenario_request).0 refl

abbrev steady : Platform
steady = record platform { backend = λ sent call. some reply_done }

steady-IsPermitted : IsPermitted steady scenario_request
unfolding refusal demo_token
steady-IsPermitted = (refusal_iff steady scenario_request).0 refl

refusal_iff_example :
    (refusal platform scenario_request ≡ none) ↔ IsPermitted platform scenario_request
refusal_iff_example = refusal_iff platform scenario_request

-- The token's database reset is refused.
reset_refused :
    (proxy platform
      (record scenario_request { segments = codes "v1" ∷ codes "demo" ∷ codes "reset" ∷ [] })
      returning).0.status
    ≡ 404
unfolding proxy
reset_refused = refl

demo_token_confined_example :
    (calls : List Call) × ((proxy platform scenario_request returning).1.sent ≡ [] ++ calls)
    × All
        (λ c.
          HasHeader (codes "X-Demo-Token") c.headers → IsScenarioCall platform scenario_request c)
        calls
demo_token_confined_example = demo_token_confined platform scenario_request returning

proxy-HidesSecrets_example :
    HidesSecrets (obj (entry (codes "token") (str (codes "[redacted server-side]")) end))
unfolding proxy answer parse client_key
proxy-HidesSecrets_example =
    proxy-HidesSecrets platform scenario_request returning
      (obj (entry (codes "token") (str (codes "[redacted server-side]")) end)) refl

resolve_session-IsResolved_example :
    IsResolved platform returning
      (resolve_session platform (codes "k") returning).0
      (resolve_session platform (codes "k") returning).1
resolve_session-IsResolved_example = resolve_session-IsResolved platform (codes "k") returning
