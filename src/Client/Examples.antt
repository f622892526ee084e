-- ===== src/Client/Examples.antt =====
-- A browser and a few calls, and instances of the theorems on the client.
use fintech_innova_hack.Prelude.{◌≡◌, refl, inr, false, none, some, [], ◌∷◌, ◌++◌}
use fintech_innova_hack.Prelude.Text.{codes, text_eq, split}
use fintech_innova_hack.Json.{Json, str, obj, end, entry}
use fintech_innova_hack.Server.Http.{Reply, Platform}
use fintech_innova_hack.Proxy.{Request, refusal, is_bad_segment, has_unit}
use fintech_innova_hack.Proxy.Guards.{IsPlain, is_bad_segment_iff}
use fintech_innova_hack.Client.{Browser}
use fintech_innova_hack.Client.Uri.{encode_uri_component}
use fintech_innova_hack.Client.Records.{review_application, path, method_of}
use fintech_innova_hack.Client.Requests.{refusal-path}

-- A slash, a letter outside ASCII and a surrogate pair.
encoded :
    encode_uri_component (codes "a/é" ++ 0xD83D ∷ 0xDE00 ∷ [])
    ≡ some (codes "a%2F%C3%A9%F0%9F%98%80")
unfolding encode_uri_component
encoded = refl

half_a_pair : encode_uri_component (codes "a" ++ 0xD83D ∷ []) ≡ none
unfolding encode_uri_component
half_a_pair = refl

abbrev platform : Platform
platform = record {
  api_base = none;
  demo = none;
  production = false;
  backend = λ sent call. none;
  url_host = λ url. some (codes "web");
  parse_json = λ text. none;
  suffix = λ sent. [];
}

abbrev review : Request
review = record {
  method = codes "POST";
  segments = codes "v1" ∷ codes "credit-applications" ∷ codes "app_1" ∷ codes "review" ∷ [];
  search = [];
  body = codes "{}";
  origin = some (codes "https://web");
  host = some (codes "web");
  content_type = none;
  forwarded = none;
  user_agent = none;
}

app_1-IsPlain : IsPlain (codes "app_1")
unfolding is_bad_segment text_eq has_unit
app_1-IsPlain = (is_bad_segment_iff (codes "app_1")).0 refl

refusal-path_example : refusal platform review ≡ none
unfolding method_of path split text_eq
refusal-path_example =
    refusal-path platform review review_application (codes "app_1") refl refl app_1-IsPlain
      (λ w. inr (codes "https://web", codes "web", refl, refl, refl))

abbrev blocked : Json
blocked = obj (
    entry (codes "error")
      (obj (
        entry (codes "code") (str (codes "CROSS_SITE_BLOCKED"))
          (entry (codes "detail") (str (codes "That request was blocked.")) end)))
      end)

abbrev browser : Browser
browser = record {
  fetch = λ call. none;
  parse_json = λ text. some blocked;
  print_pairs = λ pairs. [];
}

abbrev blocked_reply : Reply
blocked_reply = record { status = 403; content_type = none; body = codes "{...}" }

abbrev demo_platform : Platform
demo_platform = record platform { demo = some (codes "demo") }

abbrev judge : Request
judge = record review {
  segments = codes "v1" ∷ codes "demo" ∷ codes "scenarios" ∷ codes "overspend" ∷ [];
}
