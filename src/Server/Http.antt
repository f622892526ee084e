-- ===== src/Server/Http.antt =====
-- What the server handlers see of the platform: requests to the API and its replies, the cookie of
-- the visitor, and exceptions. The API itself, `fetch`, the URL parser, `JSON.parse`, the clock and
-- the random numbers are the fields of `Platform`.
use fintech_innova_hack.Prelude.{ℕ, Bool, true, false, Option, none, some, List, [], ◌∷◌, ◌++◌}
use fintech_innova_hack.Prelude.Text.{Text}
use fintech_innova_hack.Json.{Json}

pub data Payload : Type 0 where
  raw : Text → Payload
  json : Json → Payload

-- One `fetch`.
pub record Call : Type 0 where
  pub method : Text
  pub url : Text
  pub headers : List (Text × Text)
  pub body : Option Payload

pub record Reply : Type 0 where
  pub status : ℕ
  pub content_type : Option Text
  pub body : Text

-- A thrown value: the two uses of `SessionError`, and anything else that is thrown.
pub data Error : Type 0 where
  not_created : ℕ → Error
  no_bearer : Error
  fault : Error

abbrev pub is_session_error : Error → Bool
is_session_error (not_created status) = true
is_session_error no_bearer = true
is_session_error fault = false

pub data Result (A : Type 0) : Type 0 where
  ok : A → Result A
  err : Error → Result A

-- `api_base`, `demo` and `production` are the environment. `backend` answers a call after the calls
-- made before it, `none` where `fetch` rejects. `url_host` is `new URL(_).host`, `none` where it
-- throws. `suffix` is what `Date.now` and `Math.random` give a new workspace's address.
pub record Platform : Type 0 where
  pub api_base : Option Text
  pub demo : Option Text
  pub production : Bool
  pub backend : List Call → Call → Option Reply
  pub url_host : Text → Option Text
  pub parse_json : Text → Option Json
  pub suffix : List Call → Text

pub record Cookie : Type 0 where
  pub value : Text
  pub http_only : Bool
  pub same_site_lax : Bool
  pub secure : Bool
  pub path : Text
  pub max_age : ℕ

-- A promise of a bearer: which mint it is, and how that ends.
pub record Mint : Type 0 where
  pub id : ℕ
  pub outcome : Result Text

-- `jar` is what `jar.get(COOKIE_NAME)?.value` reads, `set_cookies` the cookies of the response, the
-- newest first; `sent` are the calls made, in order. `mints_in_flight` outlives the request.
pub record State : Type 0 where
  pub jar : Option Text
  pub set_cookies : List Cookie
  pub sent : List Call
  pub mints_in_flight : List (Text × Mint)
  pub next_mint : ℕ

abbrev pub M : Type 0 → Type 0
M A = State → Result A × State

module _ {A : Type 0} where
  abbrev pub pure : A → M A
  pure a s = (ok a, s)

  abbrev pub throw : Error → M A
  throw e s = (err e, s)

  abbrev pub gets : (State → A) → M A
  gets f s = (ok (f s), s)

  abbrev pub from_result : Result A → M A
  from_result r s = (r, s)

-- What follows runs in the state that was left, or not at all.
abbrev pub after : {A B : Type 0} → Result A × State → (A → M B) → Result B × State
after (ok a, s) f = f a s
after (err e, s) f = (err e, s)

infixl 5 ◌>>=◌ ◌>>◌
abbrev pub ◌>>=◌ : {A B : Type 0} → M A → (A → M B) → M B
◌>>=◌ m f s = after (m s) f

abbrev pub ◌>>◌ : {A B : Type 0} → M A → M B → M B
m >> k = m >>= λ _. k

abbrev pub modify : (State → State) → M (Unit {0})
modify f s = (ok tt, f s)

-- The call is on record whether or not it is answered.
unfoldable pub fetch : Platform → Call → M Reply
fetch p call s =
    let s' = record s { sent = s.sent ++ call ∷ [] } in
    elim (p.backend s.sent call) [ none ↦ (err fault, s') | some reply ↦ (ok reply, s') ]
