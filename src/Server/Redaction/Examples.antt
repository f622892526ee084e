-- ===== src/Server/Redaction/Examples.antt =====
-- Tests and instances of the theorems on `redact`.
use fintech_innova_hack.Prelude.{◌≡◌, refl, true, some, [], ◌∷◌}
use fintech_innova_hack.Prelude.Text.{codes}
use fintech_innova_hack.Json.{Json, null, str, bool, arr, obj, nil, cons, end, entry}
use fintech_innova_hack.Server.Backend.{is_secret, redacted, redact, backend_base}
use fintech_innova_hack.Server.Redaction.{redact-Alike, alike_obj, alike_end, hidden}
use fintech_innova_hack.Server.Redaction.Paths.{key, hop, walk, IsKeptAt, walk-IsKept}

abbrev organization : Json
organization = obj (
    entry (codes "name") (str (codes "Sandbox")) (
      entry (codes "Owner_API_Token") (str (codes "tok_1"))
        (entry (codes "keys") (arr (cons (obj (entry (codes "secret") null end)) nil)) end)))

redact-organization :
    redact organization
    ≡ obj (
        entry (codes "name") (str (codes "Sandbox")) (
          entry
            (codes "Owner_API_Token")
            (str redacted)
            (entry (codes "keys") (arr (cons (obj (entry (codes "secret") null end)) nil)) end)))
unfolding redact
redact-organization = refl

backend_base_slashes : backend_base (some (codes "https://api//")) ≡ codes "https://api"
unfolding backend_base
backend_base_slashes = refl

redact-Alike_example :
    redact (obj (entry (codes "token") (str (codes "a")) end))
    ≡ redact (obj (entry (codes "token") (bool true) end))
unfolding is_secret
redact-Alike_example = redact-Alike (alike_obj (hidden refl (cc) (cc) alike_end))

walk-IsKept_example :
    IsKeptAt (some (str (codes "Sandbox"))) (walk (key (codes "name") ∷ []) (redact organization))
unfolding is_secret walk hop
walk-IsKept_example = walk-IsKept (key (codes "name") ∷ []) organization (refl, tt)
