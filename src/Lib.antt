-- ===== src/Lib.antt =====
-- CredenceAI's web front end: the code between the browser and the API.
--
-- The browser calls only the front end's own server. Its proxy (frontend/app/api/credence/[...path]/
-- route.ts) refuses what it does not serve, finds the visitor's bearer (frontend/lib/server/
-- session.ts), forwards the request to the API with it, and relays the reply with every credential
-- redacted (frontend/lib/server/backend.ts). In the browser, one client makes all calls
-- (frontend/lib/api.ts), whose replies have the types of frontend/lib/types.ts; the onboarding forms
-- run their writes one after the other (frontend/lib/onboarding.ts), and every figure is formatted and
-- read by one file (frontend/lib/format.ts).
--
-- Which file models what:
--   Prelude        names of the libraries, Boolean tests, lists and JavaScript's texts (UTF-16 units),
--                  and doubles in Prelude/Double
--   Json           what JSON.parse returns
--   Server/Backend backend.ts: backendBase is `backend_base`, demoToken `demo_token`, redact `redact`
--   Server/Redaction, Server/Redaction/Paths   theorems on `redact`
--   Server/Http    fetch, cookies and exceptions as a state and error monad `M`
--   Server/Session session.ts: clientKey is `client_key`, mintSandboxTenant `mint_sandbox_tenant`,
--                  resolveSession `resolve_session`, clearSession `clear_session`
--   Server/Session/Interleaving   several visitors' requests as a step relation over mintsInFlight
--   Proxy          route.ts: the early returns are `refusal`, send is `forward`, the first try block
--                  and the renewal are `serve` and `attempt`, the rest `relay`
--   Proxy/Guards, Proxy/Calls, Proxy/Secrets, Proxy/Renewal   theorems on `proxy`
--   Onboarding     onboarding.ts: runSteps is `run_steps`, with its lists in Onboarding/Vocabulary
--   Format         format.ts: amounts in Format/Rupees, times in Format/Times, identifiers and codes in
--                  Format/Labels
--   Types          types.ts: a record or data type for each declaration; the type of a field that is
--                  an object literal is named for its path, as in `DashboardSummaryCredit`
--   Client         api.ts: request is `request`, toApiError `to_api_error`, and what follows a reply
--                  `receive`; the operations that name a record are in Client/Records, the others in
--                  Client/Endpoints, encodeURIComponent in Client/Uri
--   Client/Requests, Client/Served, Client/Replies   theorems on the client against the proxy
--   Navigation     frontend/components/shell/nav-config.ts: activeHref is `active_href`
--   Forms          what the forms do, apart from how they are drawn; Forms/Service is an awaited call of
--                  the client, Forms/Checks the tests of a field. The files under
--                  frontend/components/onboarding: new-application.tsx in Forms/Application,
--                  Forms/Application/Writes (its submit) and Forms/Drafts (its evidence entries),
--                  register-agent.tsx in Forms/Agent, underwriting-summary.tsx in Forms/Underwriting,
--                  repayment-controls.tsx in Forms/Repayment and Forms/Following; and
--                  frontend/components/underwriting/review-controls.tsx in Forms/Review
--   Queries        frontend/lib/queries.ts: a hook that reads is a `Query`, keys is `key_of`, and what
--                  the hooks that write mark as out of date is `areas` in Queries/Writes
--   Orb            frontend/lib/orb-knowledge.ts: FACTS in Orb/Facts, buildPrompt is `build_prompt` in
--                  Orb/Prompt, CANNED and factFallback are `canned` and `fact_fallback` in Orb/Answers;
--                  frontend/app/api/orb/route.ts in Orb/Route: askModel is `ask_model`, POST `post`;
--                  the panel of frontend/components/orb.tsx in Orb/Chat, as a step relation
--   Display        frontend/components/system-intelligence/envelope.tsx, with the texts of
--                  frontend/components/data/states.tsx, in Display/Envelope;
--                  frontend/components/vaults/waterfall.tsx in Display/Waterfall; the caps of
--                  frontend/components/underwriting/decision-panels.tsx in Display/Caps
--   Pages          what the screens of frontend/app/(product) compute before they draw: the list pages
--                  in Pages/Lists and Pages/Search, rollupHealth of system-intelligence/page.tsx is
--                  `rollup_health` in Pages/Health, the links of audit/page.tsx are `links` in
--                  Pages/Audit, the totals of repayments/page.tsx `totals_of` in Pages/Repayments, the
--                  steps of start/page.tsx and the banner of frontend/components/onboarding/
--                  first-run-banner.tsx in Pages/Start, the inspector of developer/console/page.tsx in
--                  Pages/Console as a step relation, the actions of vaults/[vaultId]/page.tsx in
--                  Pages/Vault, and the links of risk/page.tsx in Pages/Risk; orderStages of
--                  frontend/components/system-intelligence/pipeline.tsx is `order_stages` in
--                  Pages/Pipeline, frontend/components/ui/meter.tsx is in Pages/Meter, and
--                  frontend/components/data/status.tsx in Pages/Status; the playback of frontend/
--                  components/voice/decision-narration.tsx is a step relation in Pages/Narration, the keys
--                  of frontend/components/ui/tabs.tsx are in Pages/Tabs, and useCrumbs of frontend/
--                  components/shell/topbar.tsx is `crumbs` in Pages/Crumbs
-- Each Examples module holds tests and instances of the theorems.
--
-- A caller of the API in the model is a `Platform`: what the API answers, how a URL's host is read and
-- how JSON is parsed are its fields. State is passed explicitly, with the calls made so far on
-- record. Lists that the code mutates in place (the step states of runSteps) are rebuilt, and the list
-- of what was shown is kept.
--
-- Fuel stands in `decimal`, the digits of a number n: n + 1 is given, which is more than n has digits;
-- and in `scale` and `spread` of Prelude/Double, which find the exponent of a double: 1074 and 971 are
-- given, the least and the greatest exponent there are.
--
-- Not modelled: rendering; the formatting of doubles by Intl.NumberFormat and toFixed; the cache of the
-- query library, with its timers and its matching of keys, which is a parameter; the audio that
-- fetchDecisionNarration of api.ts returns; how a URL parser resolves the parts "." and "..". The API itself, the assistant's model, URLSearchParams and the router
-- that decodes a path into segments are parameters or premises. A duration is a whole
-- number of hours, and an amount that is summed an exact integer. A rupee amount that is typed, and the
-- share of a meter, are doubles, with the rounding of IEEE 754 written out in Prelude/Double; a hundredfold
-- that overflows, of 1.8 * 10^306 rupees or more, is left out. A message's lower case is modelled
-- as far as ASCII words are looked for in it; on the list pages, and for the codes of a status, the
-- change of case is a parameter.
pub mod Prelude
pub mod Json
pub mod Server
pub mod Proxy
pub mod Onboarding
pub mod Display
pub mod Queries
pub mod Orb
pub mod Format
pub mod Types
pub mod Client
pub mod Navigation
pub mod Forms
pub mod Pages
