-- ===== src/Proxy/Secrets.antt =====
-- Where the proxy's credentials can go: the demonstration token to one kind of call, and no secret of
-- a reply to the browser.
use mathlib.Core.Option
use mathlib.Core.List.{append_assoc}
use fintech_innova_hack.Prelude.{
  ◌≡◌, refl, ◌⊎◌, inl, inr, true, Option, none, some, List, [], ◌∷◌, ◌++◌, arith, All, Option-cases,
  Bool-cases, ℕ,
}
use fintech_innova_hack.Prelude.Text.{Text, codes, join, starts_with}
use mathlib.Core.Path.{subst}
use fintech_innova_hack.Prelude.Text.Laws.{text_eq_iff}
use fintech_innova_hack.Json.{Json, null, str}
use fintech_innova_hack.Server.Backend.{backend_base, redacted, redact, mask, is_secret}
use fintech_innova_hack.Server.Redaction.{redact_idem}
use fintech_innova_hack.Server.Redaction.Paths.{Hop, IsPublic, reach, reach-redact}
use fintech_innova_hack.Server.Http.{
  Call, Reply, Result, ok, err, Error, is_session_error, Platform, State, ◌>>=◌,
}
use fintech_innova_hack.Server.Session.{mint_call, resolve_session}
use fintech_innova_hack.Proxy.{
  Request, Response, segment_is, not_proxied, document, problem, is_empty, text_or, refusal, target,
  call_headers, forward_call, relay, unavailable, conclude, visitor, attempt, serve, proxy,
}
use fintech_innova_hack.Proxy.Guards.{IsPermitted, IsPlain}
use fintech_innova_hack.Proxy.Calls.{IsAllowed, minting, forwarding, IsCourse-All, proxy-Exchange}

abbrev pub HasHeader : Text → List (Text × Text) → Type 0
HasHeader name [] = ⊥
HasHeader name ((k, v) ∷ hs) = (k ≡ name) ⊎ HasHeader name hs

-- A call to the scenario runner, under a plain name.
abbrev pub IsScenarioCall : Platform → Request → Call → Type 0
IsScenarioCall p req c =
    (name : Text) × IsPlain name
    × (c.url ≡ backend_base p.api_base ++ codes "/v1/demo/scenarios/" ++ name ++ req.search)

header_demo :
    (p : Platform) (req : Request) (token : Text)
    → HasHeader (codes "X-Demo-Token") (call_headers p req token)
    → segment_is 1 (codes "demo") req.segments ≡ true
unfolding call_headers
header_demo p req token h = ground arith

demo_cons :
    (ss rest : List Text)
    → ss ≡ codes "v1" ∷ rest
    → segment_is 1 (codes "demo") ss ≡ true
    → (more : List Text) × (ss ≡ codes "v1" ∷ codes "demo" ∷ more)
unfolding segment_is
demo_cons [] rest e h = cc
demo_cons (s ∷ []) rest e h = cc
demo_cons (s ∷ t ∷ ss) rest e h = (ss, ground (arith, text_eq_iff t (codes "demo")))

last_plain :
    {s t u v : Text} (ss : List Text) → All IsPlain ss → ss ≡ s ∷ t ∷ u ∷ v ∷ [] → IsPlain v
last_plain ss h e = (subst (All IsPlain) e h).1.1.1.0

target-scenario :
    (p : Platform) (req : Request) (name : Text)
    → req.segments ≡ codes "v1" ∷ codes "demo" ∷ codes "scenarios" ∷ name ∷ []
    → target p req ≡ backend_base p.api_base ++ codes "/v1/demo/scenarios/" ++ name ++ req.search
unfolding target join
target-scenario p req name e = simp e (simp append_assoc)

forward-IsScenarioCall :
    (p : Platform) (req : Request) (token : Text)
    → IsPermitted p req
    → HasHeader (codes "X-Demo-Token") (call_headers p req token)
    → IsScenarioCall p req (forward_call p req token)
unfolding forward_call
forward-IsScenarioCall p req token ok_req h =
    let (rest, e) = ok_req.versioned in
    let (more, d) = demo_cons req.segments rest e (header_demo p req token h) in
    let (name, shape, _) = ok_req.scenario more d in
    (name, last_plain req.segments ok_req.plain shape, target-scenario p req name shape)

IsAllowed-demo :
    (p : Platform) (req : Request) (c : Call)
    → IsAllowed p req c
    → HasHeader (codes "X-Demo-Token") c.headers
    → IsScenarioCall p req c
unfolding forward_call mint_call
IsAllowed-demo p req c (minting sent) h = ground arith
IsAllowed-demo p req c (forwarding token permitted) h =
    forward-IsScenarioCall p req token permitted h

All-IsAllowed :
    (p : Platform) (req : Request) (cs : List Call)
    → All (IsAllowed p req) cs
    → All (λ c. HasHeader (codes "X-Demo-Token") c.headers → IsScenarioCall p req c) cs
All-IsAllowed p req [] h = tt
All-IsAllowed p req (c ∷ cs) (a, h) = (IsAllowed-demo p req c a, All-IsAllowed p req cs h)

-- Of the calls that serving a request adds, each that carries the header X-Demo-Token goes to
-- /v1/demo/scenarios/ and one name, which is plain, and the request's query.
pub demo_token_confined :
    (p : Platform) (req : Request) (s : State)
    → (calls : List Call) × ((proxy p req s).1.sent ≡ s.sent ++ calls)
      × All (λ c. HasHeader (codes "X-Demo-Token") c.headers → IsScenarioCall p req c) calls
demo_token_confined p req s =
    let x = proxy-Exchange p req s in
    (x.calls, x.grown, All-IsAllowed p req x.calls (IsCourse-All p req x.course))

-- Under every secret key there is nothing, null, or the mark of redaction.
abbrev pub HidesSecrets : Json → Type 0
HidesSecrets v =
    (hs : List Hop) (k : Text)
    → IsPublic hs
    → is_secret k ≡ true
    → (reach hs k v ≡ none) ⊎ (reach hs k v ≡ some null) ⊎ (reach hs k v ≡ some (str redacted))

mask_cases :
    (o : Option Json)
    → (Option.map mask o ≡ none)
      ⊎ (Option.map mask o ≡ some null)
      ⊎ (Option.map mask o ≡ some (str redacted))
unfolding mask
mask_cases none = inl refl
mask_cases (some v) = ground arith

fixed-HidesSecrets : (v : Json) → redact v ≡ v → HidesSecrets v
fixed-HidesSecrets v e hs k h s =
    let r : reach hs k v ≡ Option.map mask (reach hs k v) =
      subst (λ w. reach hs k w ≡ Option.map mask (reach hs k v)) e (reach-redact hs k v h s) in
    rw r (mask_cases (reach hs k v))

-- A document that the browser is sent is one that redaction leaves alone.
abbrev IsFixed : Response → Type 0
IsFixed r = (v : Json) → r.content ≡ document v → redact v ≡ v

document-injective : {v w : Json} → document v ≡ document w → v ≡ w
document-injective e = cc

problem-IsFixed : (code detail : Text) (status : ℕ) → IsFixed (problem code detail status)
unfolding problem redact is_secret
problem-IsFixed code detail status v e = subst (λ w. redact w ≡ w) (document-injective e) refl

relay-IsFixed : (p : Platform) (reply : Reply) → IsFixed (relay p reply)
unfolding relay
relay-IsFixed p reply v e =
    elim (Bool-cases (starts_with (codes "audio/") (text_or [] reply.content_type))) [
      | inl a ↦ ground arith
      | inr a ↦ elim (Bool-cases (is_empty reply.body)) [
        | inl b ↦ ground arith
        | inr b ↦ elim (Option-cases (p.parse_json reply.body)) [
          | inl c ↦
              problem-IsFixed (codes "UPSTREAM_UNREADABLE")
                (codes "The CredenceAI service returned an unreadable response.") 502 v
                (ground arith)
          | inr (d, c) ↦
              subst (λ w. redact w ≡ w) (document-injective (ground arith)) (redact_idem d)
        ]
      ]
    ]

unavailable-IsFixed : (e : Error) → IsFixed (unavailable e)
unfolding unavailable
unavailable-IsFixed e v h = elim (Bool-cases (is_session_error e)) [
  | inl b ↦
      problem-IsFixed (codes "WORKSPACE_UNAVAILABLE")
        (codes
          "Your sandbox workspace could not be prepared. The CredenceAI service may still be starting.")
        503 v (ground arith)
  | inr b ↦
      problem-IsFixed (codes "SERVICE_UNAVAILABLE")
        (codes "The CredenceAI service is not reachable.") 503 v (ground arith)
]

refusal-IsFixed : (p : Platform) (req : Request) (r : Response) → refusal p req ≡ some r → IsFixed r
unfolding refusal problem redact is_secret not_proxied
refusal-IsFixed p req r e v h = ground arith

conclude-IsFixed : (p : Platform) (r : Result Reply) → IsFixed (conclude p r)
unfolding conclude
conclude-IsFixed p (ok reply) = relay-IsFixed p reply
conclude-IsFixed p (err e) = unavailable-IsFixed e

serve-IsFixed : (p : Platform) (req : Request) (s : State) → IsFixed (serve p req s).0
unfolding serve
serve-IsFixed p req s = conclude-IsFixed p ((resolve_session p (visitor req) >>= attempt p req) s).0

proxy-IsFixed : (p : Platform) (req : Request) (s : State) → IsFixed (proxy p req s).0
unfolding proxy
proxy-IsFixed p req s = elim (Option-cases (refusal p req)) [
  | inr (r, e) ↦ rw e (refusal-IsFixed p req r e)
  | inl e ↦ rw e (serve-IsFixed p req s)
]

-- In every document that the proxy sends to the browser, on every branch, each secret key that can be
-- reached without entering another one has null or the mark of redaction under it.
pub proxy-HidesSecrets :
    (p : Platform) (req : Request) (s : State) (v : Json)
    → (proxy p req s).0.content ≡ document v
    → HidesSecrets v
proxy-HidesSecrets p req s v e = fixed-HidesSecrets v (proxy-IsFixed p req s v e)
