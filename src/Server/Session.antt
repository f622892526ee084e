-- ===== src/Server/Session.antt =====
-- frontend/lib/server/session.ts, one request at a time. How requests interleave is in
-- Session/Interleaving.
pub mod Interleaving
pub mod Laws
use fintech_innova_hack.Prelude.{
  ℕ, suc, ◌*◌, ◌+◌, Bool, true, false, ◌&&◌, Option, none, some, List, [], ◌∷◌, ◌++◌, ltb, leb,
  ◌==◌, if◌then◌else◌,
}
use fintech_innova_hack.Prelude.Text.{Text, codes, text_eq, trim, split}
use fintech_innova_hack.Json.{Json, null, str, obj, end, entry, prop}
use fintech_innova_hack.Server.Backend.{backend_base}
use fintech_innova_hack.Server.Http.{
  Payload, Call, Reply, Error, not_created, no_bearer, fault, Result, ok, err, Platform, Cookie,
  Mint, State, M, pure, throw, gets, from_result, ◌>>=◌, ◌>>◌, modify, fetch,
}

abbrev cookie_max_age_seconds : ℕ
cookie_max_age_seconds = 60 * 60 * 12

abbrev pub last_or : Text → List Text → Text
last_or d [] = d
last_or d (x ∷ xs) = last_or x xs

-- The arguments are the headers `x-forwarded-for` and `user-agent`.
unfoldable pub client_key : Option Text → Option Text → Text
unfolding trim split
client_key forwarded user_agent =
    let header : Text = elim forwarded [ none ↦ [] | some t ↦ t ] in
    let agent : Text = elim user_agent [ none ↦ [] | some t ↦ t ] in
    trim (last_or [] (split b',' header)) ++ b'|' ∷ agent

pub record Session : Type 0 where
  pub token : Text
  pub minted : Bool

-- `response.ok`
abbrev pub is_ok : ℕ → Bool
is_ok status = leb 200 status && ltb status 300

unfoldable pub mint_call : Platform → List Call → Call
unfolding backend_base
mint_call p sent = record {
  method = codes "POST";
  url = backend_base p.api_base ++ codes "/v1/organizations";
  headers = (codes "Content-Type", codes "application/json") ∷ [];
  body = some (
      Payload.json (
        obj (
          entry (codes "name") (str (codes "Sandbox Workspace")) (
            entry (codes "owner_email")
              (str (codes "sandbox." ++ p.suffix sent ++ codes "@credence.local")) end))));
}

-- `body.owner_api_token`, where the body is an object.
bearer_of : Option Json → Result Text
bearer_of (some (str [])) = err no_bearer
bearer_of (some (str (c ∷ s))) = ok (c ∷ s)
bearer_of _ = err no_bearer

-- `null.owner_api_token` throws; on another value that is no object it is undefined.
unfoldable pub read_bearer : Option Json → Result Text
unfolding bearer_of
read_bearer none = err fault
read_bearer (some null) = err fault
read_bearer (some (obj es)) = bearer_of (prop es (codes "owner_api_token"))
read_bearer (some _) = err no_bearer

unfoldable pub read_mint : Platform → Reply → Result Text
unfolding read_bearer
read_mint p reply =
    if is_ok reply.status
    then read_bearer (p.parse_json reply.body)
    else err (not_created reply.status)

unfoldable pub mint_sandbox_tenant : Platform → M Text
unfolding mint_call read_mint fetch
mint_sandbox_tenant p = do
  sent ← gets (λ s. s.sent)
  reply ← fetch p (mint_call p sent)
  from_result (read_mint p reply)

unfoldable pub get_mint {ℓ} : {V : Type ℓ} → Text → List (Text × V) → Option V
unfolding text_eq
get_mint key [] = none
get_mint key ((j, m) ∷ mints) = if text_eq j key then some m else get_mint key mints

unfoldable pub delete_mint {ℓ} : {V : Type ℓ} → Text → List (Text × V) → List (Text × V)
unfolding text_eq
delete_mint key [] = []
delete_mint key ((j, m) ∷ mints) = if text_eq j key then mints else (j, m) ∷ delete_mint key mints

-- The callback of `finally`: the slot is freed if this mint still holds it.
unfoldable pub release_mint : Text → ℕ → State → State
unfolding get_mint delete_mint
release_mint key id s = elim (get_mint key s.mints_in_flight) [
  | none ↦ s
  | some m ↦
      if m.id == id then record s { mints_in_flight = delete_mint key s.mints_in_flight } else s
]

-- Start a mint under a key that has none. The key is entered before the reply is awaited.
unfoldable pub start_mint : Platform → Text → M Text
unfolding mint_sandbox_tenant release_mint
start_mint p key s =
    let id = s.next_mint in
    let (outcome, s') = mint_sandbox_tenant p s in
    let held = record s' {
      mints_in_flight = (key, record { id = id; outcome = outcome }) ∷ s.mints_in_flight;
      next_mint = suc id;
    } in
    (outcome, release_mint key id held)

unfoldable pub mint_or_join : Platform → Text → M Text
unfolding start_mint get_mint
mint_or_join p key s = elim (get_mint key s.mints_in_flight) [
  | some m ↦ (m.outcome, s)
  | none ↦ start_mint p key s
]

unfoldable pub session_cookie : Platform → Text → Cookie
session_cookie p token = record {
  value = token;
  http_only = true;
  same_site_lax = true;
  secure = p.production;
  path = codes "/";
  max_age = cookie_max_age_seconds;
}

abbrev pub put_cookie : Cookie → State → State
put_cookie c s = record s { jar = some c.value; set_cookies = c ∷ s.set_cookies }

-- An empty cookie is as good as none.
abbrev pub existing : State → Option Text
existing s = elim s.jar [ none ↦ none | some [] ↦ none | some (c ∷ t) ↦ some (c ∷ t) ]

unfoldable pub resolve_session : Platform → Text → M Session
unfolding mint_or_join session_cookie
resolve_session p key = do
  found ← gets existing
  elim found [
    | some token ↦ pure (record { token = token; minted = false })
    | none ↦ do
      token ← mint_or_join p key
      modify (put_cookie (session_cookie p token))
      pure (record { token = token; minted = true })
  ]

unfoldable pub clear_session : M (Unit {0})
clear_session = modify (
    put_cookie (record {
      value = [];
      http_only = false;
      same_site_lax = false;
      secure = false;
      path = codes "/";
      max_age = 0;
    }))
