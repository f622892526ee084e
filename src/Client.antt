-- ===== src/Client.antt =====
-- frontend/lib/api.ts: the browser's client of the proxy.
pub mod Uri
pub mod Records
pub mod Endpoints
pub mod Served
pub mod Requests
pub mod Replies
mod Examples
use fintech_innova_hack.Prelude.{
  ℕ, Bool, true, false, ◌||◌, Option, none, some, List, [], ◌∷◌, ◌++◌, ◌==◌, if◌then◌else◌,
}
use fintech_innova_hack.Prelude.Text.{Text, codes}
use fintech_innova_hack.Json.{Json, Entries, null, str, obj, prop}
use fintech_innova_hack.Server.Http.{Payload, Call, Reply}
use fintech_innova_hack.Server.Session.{is_ok}

-- The browser: `fetch`, which gives `none` where it rejects, `JSON.parse`, and what
-- `URLSearchParams` prints of its pairs.
pub record Browser : Type 0 where
  pub fetch : Call → Option Reply
  pub parse_json : Text → Option Json
  pub print_pairs : List (Text × Text) → Text

abbrev base : Text
base = codes "/api/credence"

pub record ApiError : Type 0 where
  pub status : ℕ
  pub code : Text
  pub detail : Text

-- What a call resolves to, or rejects with.
pub data Answer : Type 0 where
  value : Json → Answer
  failure : ApiError → Answer

-- `value?.[key]`, for a key that no text, number, truth value or array has.
field : Text → Option Json → Option Json
field key (some (obj es)) = prop es key
field key _ = none

-- `typeof value === "string" ? value : otherwise`
text_or_else : Text → Option Json → Text
text_or_else otherwise (some (str t)) = t
text_or_else otherwise _ = otherwise

stock_detail : ℕ → Text
stock_detail status =
    if status == 404
    then codes "That record could not be found."
    else if status == 401 || status == 403
    then codes "This workspace is not authorised to view that."
    else codes "Something went wrong while loading this."

unfoldable pub to_api_error : ℕ → Json → ApiError
unfolding field text_or_else stock_detail
to_api_error status body =
    let error = field (codes "error") (some body) in
    record {
      status = status;
      code = text_or_else (codes "REQUEST_FAILED") (field (codes "code") error);
      detail =
          text_or_else (text_or_else (stock_detail status) (field (codes "detail") (some body)))
            (field (codes "detail") error);
    }

unfoldable pub offline : ApiError
offline = record {
  status = 0;
  code = codes "OFFLINE";
  detail = codes "Could not reach CredenceAI. Check your connection.";
}

or_null : Option Json → Json
or_null none = null
or_null (some v) = v

-- An empty body, and one that is not JSON, are read as null.
unfoldable pub body_of : Browser → Text → Json
unfolding or_null
body_of b [] = null
body_of b (c ∷ s) = or_null (b.parse_json (c ∷ s))

unfoldable pub receive : Browser → Option Reply → Answer
unfolding to_api_error offline body_of
receive b none = failure offline
receive b (some reply) =
    let body = body_of b reply.body in
    if is_ok reply.status then value body else failure (to_api_error reply.status body)

-- The call that `request` makes of a path, a method and a body.
unfoldable pub browser_call : Text → Text → Option Json → Call
browser_call method path none = record {
  method = method;
  url = base ++ path;
  headers = (codes "Accept", codes "application/json") ∷ [];
  body = none;
}
browser_call method path (some v) = record {
  method = method;
  url = base ++ path;
  headers =
      (codes "Accept", codes "application/json")
      ∷ (codes "Content-Type", codes "application/json")
      ∷ [];
  body = some (Payload.json v);
}

-- `request(path)`
unfoldable pub request : Browser → Text → Answer
unfolding receive browser_call
request b path = receive b (b.fetch (browser_call (codes "GET") path none))

unfoldable pub post : Browser → Text → Option Json → Answer
unfolding receive browser_call
post b path body = receive b (b.fetch (browser_call (codes "POST") path body))

-- The pairs whose value is neither undefined nor empty.
given : List (Text × Option Text) → List (Text × Text)
given [] = []
given ((k, none) ∷ ps) = given ps
given ((k, some []) ∷ ps) = given ps
given ((k, some (c ∷ s)) ∷ ps) = (k, c ∷ s) ∷ given ps

question : Text → Text
question [] = []
question (c ∷ s) = b'?' ∷ c ∷ s

unfoldable pub qs : Browser → List (Text × Option Text) → Text
unfolding given question
qs b params = question (b.print_pairs (given params))
