-- ===== src/Server/Backend.antt =====
-- frontend/lib/server/backend.ts: where the API is, and the redaction of what it returns.
use fintech_innova_hack.Prelude.{
  Bool, Option, none, some, List, [], ◌∷◌, any, ◌==◌, if◌then◌else◌, ℕ,
}
use fintech_innova_hack.Prelude.Text.{Text, codes, text_eq, to_lower}
use fintech_innova_hack.Json.{
  Json, Elems, Entries, null, bool, num, str, arr, obj, nil, cons, end, entry,
}
use mathlib.Core.List.{reverse}

abbrev default_base : Text
default_base = codes "http://localhost:8001"

strip_leading : ℕ → Text → Text
strip_leading c [] = []
strip_leading c (d ∷ s) = if d == c then strip_leading c s else d ∷ s

-- `s.replace(/\/+$/, "")`
unfoldable pub strip_slashes : Text → Text
unfolding strip_leading
strip_slashes s = reverse (strip_leading b'/' (reverse s))

-- The argument is `process.env.CREDENCE_API_BASE`.
unfoldable pub backend_base : Option Text → Text
unfolding strip_slashes
backend_base none = strip_slashes default_base
backend_base (some base) = strip_slashes base

-- The argument is `process.env.CREDENCE_DEMO_TOKEN`.
unfoldable pub demo_token : Option Text → Text
demo_token none = []
demo_token (some token) = token

abbrev pub redacted : Text
redacted = codes "[redacted server-side]"

unfoldable pub secret_keys : List Text
secret_keys =
    codes "owner_api_token"
    ∷ codes "api_token"
    ∷ codes "api_token_hash"
    ∷ codes "token"
    ∷ codes "access_token"
    ∷ codes "refresh_token"
    ∷ codes "bearer"
    ∷ codes "authorization"
    ∷ codes "private_key"
    ∷ codes "private_key_b64"
    ∷ codes "signing_key"
    ∷ codes "secret"
    ∷ codes "client_secret"
    ∷ codes "password"
    ∷ codes "passphrase"
    ∷ []

-- `SECRET_KEYS.has(key.toLowerCase())`
unfoldable pub is_secret : Text → Bool
unfolding text_eq to_lower secret_keys
is_secret key = any (text_eq (to_lower key)) secret_keys

-- What a secret entry's value becomes. A parsed document holds no `undefined`.
unfoldable pub mask : Json → Json
mask null = null
mask _ = str redacted

unfoldable mutual
  unfolding is_secret mask

  pub redact : Json → Json
  redact null = null
  redact (bool b) = bool b
  redact (num n) = num n
  redact (str s) = str s
  redact (arr vs) = arr (redact_elems vs)
  redact (obj es) = obj (redact_entries es)

  pub redact_elems : Elems → Elems
  redact_elems nil = nil
  redact_elems (cons v vs) = cons (redact v) (redact_elems vs)

  pub redact_entries : Entries → Entries
  redact_entries end = end
  redact_entries (entry key inner es) =
      entry key (if is_secret key then mask inner else redact inner) (redact_entries es)
