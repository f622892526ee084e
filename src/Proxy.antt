-- ===== src/Proxy.antt =====
-- frontend/app/api/credence/[...path]/route.ts: the proxy between the browser and the API.
pub mod Guards
pub mod Calls
pub mod Secrets
pub mod Renewal
mod Examples
use fintech_innova_hack.Prelude.{
  ℕ, Bool, true, false, not, ◌&&◌, ◌||◌, Option, none, some, List, [], ◌∷◌, ◌++◌, any, length,
  get_elem?, ◌==◌, if◌then◌else◌,
}
use fintech_innova_hack.Prelude.Text.{Text, codes, text_eq, starts_with, join}
use fintech_innova_hack.Json.{Json, str, obj, end, entry}
use fintech_innova_hack.Server.Backend.{backend_base, demo_token, redact}
use fintech_innova_hack.Server.Http.{
  Payload, Call, Reply, Error, is_session_error, Result, ok, err, Platform, State, M, pure, ◌>>=◌,
  ◌>>◌, fetch,
}
use fintech_innova_hack.Server.Session.{Session, client_key, resolve_session, clear_session}

-- `segments` are `context.params.path`, `search` is `nextUrl.search`; the rest are headers and the
-- body's text.
pub record Request : Type 0 where
  pub method : Text
  pub segments : List Text
  pub search : Text
  pub body : Text
  pub origin : Option Text
  pub host : Option Text
  pub content_type : Option Text
  pub forwarded : Option Text
  pub user_agent : Option Text

pub data Content : Type 0 where
  empty : Content
  bytes : Text → Content
  document : Json → Content

pub record Response : Type 0 where
  pub status : ℕ
  pub content : Content
  pub content_type : Option Text
  pub cache_control : Option Text

-- `MUTATING_METHODS.has(method)`
unfoldable pub is_mutating : Text → Bool
unfolding text_eq
is_mutating method =
    any (text_eq method) (codes "POST" ∷ codes "PUT" ∷ codes "PATCH" ∷ codes "DELETE" ∷ [])

-- `segments[n] === text`
unfoldable pub segment_is : ℕ → Text → List Text → Bool
segment_is n t segments = elim (get_elem? segments n) [ none ↦ false | some s ↦ text_eq s t ]

unfoldable pub is_allowed_demo_path : List Text → Bool
unfolding segment_is
is_allowed_demo_path segments = segment_is 2 (codes "scenarios") segments && length segments == 4

unfoldable pub problem : Text → Text → ℕ → Response
problem code detail status = record {
  status = status;
  content = document (
      obj (
        entry (codes "error")
          (obj (entry (codes "code") (str code) (entry (codes "detail") (str detail) end))) end));
  content_type = some (codes "application/json");
  cache_control = none;
}

-- `new URL(origin).host !== host`, where a URL that cannot be parsed counts as another site.
host_differs : Option Text → Option Text → Bool
host_differs (some h) (some host) = not (text_eq h host)
host_differs _ _ = true

unfoldable pub is_cross_site : Platform → Request → Bool
unfolding host_differs
is_cross_site p req = elim req.origin [
  | none ↦ false
  | some origin ↦ host_differs (p.url_host origin) req.host
]

-- `s.includes(c)` for one unit
unfoldable pub has_unit : ℕ → Text → Bool
has_unit c s = any (λ d. d == c) s

unfoldable pub is_bad_segment : Text → Bool
unfolding text_eq has_unit
is_bad_segment s =
    text_eq s (codes ".") || text_eq s (codes "..") || has_unit b'/' s || has_unit b'\\' s

not_proxied : Response
unfolding problem
not_proxied = problem (codes "NOT_PROXIED") (codes "That resource is not available here.") 404

abbrev is_demo : Request → Bool
is_demo req = segment_is 1 (codes "demo") req.segments

abbrev pub is_empty : Text → Bool
is_empty [] = true
is_empty (c ∷ s) = false

-- The early returns before a session is sought, in the order of the code.
unfoldable pub refusal : Platform → Request → Option Response
unfolding is_bad_segment segment_is is_mutating is_cross_site is_allowed_demo_path not_proxied
    problem
refusal p req =
    if any is_bad_segment req.segments
    then some (problem (codes "BAD_PATH") (codes "That request path is not valid.") 400)
    else if not (segment_is 0 (codes "v1") req.segments)
    then some not_proxied
    else if is_mutating req.method && is_cross_site p req
    then some (problem (codes "CROSS_SITE_BLOCKED") (codes "That request was blocked.") 403)
    else if is_demo req && not (is_allowed_demo_path req.segments)
    then some not_proxied
    else if is_demo req && is_empty (demo_token p.demo)
    then some (
        problem (codes "DEMO_DISABLED")
          (codes "The demonstration surface is switched off in this deployment.") 503)
    else none

unfoldable pub target : Platform → Request → Text
unfolding backend_base join
target p req = backend_base p.api_base ++ b'/' ∷ join b'/' req.segments ++ req.search

content_headers : Option Text → List (Text × Text)
content_headers none = []
content_headers (some t) = (codes "Content-Type", t) ∷ []

unfoldable pub call_headers : Platform → Request → Text → List (Text × Text)
unfolding content_headers demo_token segment_is
call_headers p req token =
    (codes "Accept", codes "application/json")
      ∷ (codes "Authorization", codes "Bearer " ++ token)
      ∷ content_headers req.content_type
    ++ (if is_demo req then (codes "X-Demo-Token", demo_token p.demo) ∷ [] else [])

-- Only a mutating request has its body read, and an empty one is not sent.
call_body : Request → Option Payload
call_body req =
    if is_mutating req.method && not (is_empty req.body) then some (Payload.raw req.body) else none

unfoldable pub forward_call : Platform → Request → Text → Call
unfolding target call_headers call_body
forward_call p req token = record {
  method = req.method;
  url = target p req;
  headers = call_headers p req token;
  body = call_body req;
}

-- `send`
unfoldable pub forward : Platform → Request → Text → M Reply
unfolding forward_call fetch
forward p req token = fetch p (forward_call p req token)

abbrev pub visitor : Request → Text
visitor req = client_key req.forwarded req.user_agent

-- The cookie's bearer is dropped and a fresh workspace's is tried.
unfoldable pub renew : Platform → Request → M Reply
unfolding forward clear_session resolve_session
renew p req = do clear_session; fresh ← resolve_session p (visitor req); forward p req fresh.token

-- Send, and once more with a fresh workspace if the cookie's bearer is refused.
unfoldable pub attempt : Platform → Request → Session → M Reply
unfolding forward renew
attempt p req session = do
  upstream ← forward p req session.token
  if upstream.status == 401 && not session.minted then renew p req else pure upstream

unfoldable pub unavailable : Error → Response
unfolding problem
unavailable e =
    if is_session_error e
    then problem (codes "WORKSPACE_UNAVAILABLE")
        (codes
          "Your sandbox workspace could not be prepared. The CredenceAI service may still be starting.")
        503
    else problem (codes "SERVICE_UNAVAILABLE") (codes "The CredenceAI service is not reachable.")
        503

abbrev no_store : Text
no_store = codes "no-store, private"

text_or : Text → Option Text → Text
text_or d none = d
text_or d (some t) = t

-- What the browser is given of a reply.
unfoldable pub relay : Platform → Reply → Response
unfolding text_or problem starts_with redact
relay p reply =
    if starts_with (codes "audio/") (text_or [] reply.content_type)
    then record {
      status = reply.status;
      content = bytes reply.body;
      content_type = some (text_or [] reply.content_type);
      cache_control = some no_store;
    }
    else if is_empty reply.body
    then record {
      status = reply.status;
      content = empty;
      content_type = none;
      cache_control = none;
    }
    else elim (p.parse_json reply.body) [
      | none ↦
          problem (codes "UPSTREAM_UNREADABLE")
            (codes "The CredenceAI service returned an unreadable response.") 502
      | some payload ↦ record {
        status = reply.status;
        content = document (redact payload);
        content_type = some (text_or (codes "application/json") reply.content_type);
        cache_control = some no_store;
      }
    ]

unfoldable pub conclude : Platform → Result Reply → Response
unfolding unavailable relay
conclude p (ok reply) = relay p reply
conclude p (err e) = unavailable e

-- The part after the guards; both `catch` blocks answer alike.
unfoldable pub serve : Platform → Request → State → Response × State
unfolding attempt resolve_session conclude
serve p req s =
    let (r, s') = (resolve_session p (visitor req) >>= attempt p req) s in (conclude p r, s')

unless_refused : Option Response → (State → Response × State) → State → Response × State
unless_refused (some r) k s = (r, s)
unless_refused none k s = k s

unfoldable pub proxy : Platform → Request → State → Response × State
unfolding refusal serve unless_refused
proxy p req s = unless_refused (refusal p req) (serve p req) s
