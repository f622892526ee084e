-- ===== src/Server/Redaction/Paths.antt =====
-- Where in a redacted document which values stand.
use mathlib.Core.Option
use mathlib.Core.Path.{subst}
use fintech_innova_hack.Prelude.{
  ℕ, zero, suc, ◌≡◌, refl, sym, ap, true, false, Option, none, some, List, [], ◌∷◌, arith, ◌>>=◌,
  Option-cases, inl, inr,
}
use fintech_innova_hack.Prelude.Text.{Text}
use fintech_innova_hack.Prelude.Text.Laws.{text_eq_iff}
use fintech_innova_hack.Json.{
  Json, Elems, Entries, null, bool, num, str, arr, obj, nil, cons, end, entry, nth, prop,
}
use fintech_innova_hack.Server.Backend.{is_secret, mask, redact, redact_elems, redact_entries}

-- One step from a value into a part of it.
pub data Hop : Type 0 where
  at : ℕ → Hop
  key : Text → Hop

unfoldable pub hop : Hop → Json → Option Json
hop (at n) (arr vs) = nth vs n
hop (key k) (obj es) = prop es k
hop _ _ = none

unfoldable pub walk : List Hop → Json → Option Json
walk [] v = some v
walk (h ∷ hs) v = hop h v >>= walk hs

-- A path that enters no secret entry.
abbrev pub IsPublic : List Hop → Type 0
IsPublic [] = Unit
IsPublic (at n ∷ hs) = IsPublic hs
IsPublic (key k ∷ hs) = (is_secret k ≡ false) × IsPublic hs

nth-redact_elems : (vs : Elems) (n : ℕ) → nth (redact_elems vs) n ≡ Option.map redact (nth vs n)
unfolding redact
nth-redact_elems nil n = refl
nth-redact_elems (cons v vs) zero = refl
nth-redact_elems (cons v vs) (suc n) = nth-redact_elems vs n

prop-redact_entries :
    (es : Entries) (k : Text)
    → is_secret k ≡ false
    → prop (redact_entries es) k ≡ Option.map redact (prop es k)
unfolding redact
prop-redact_entries end k h = refl
prop-redact_entries (entry j v es) k h = ground (arith, text_eq_iff j k, prop-redact_entries es k h)

prop-redact_secret :
    (es : Entries) (k : Text)
    → is_secret k ≡ true
    → prop (redact_entries es) k ≡ Option.map mask (prop es k)
unfolding redact
prop-redact_secret end k h = refl
prop-redact_secret (entry j v es) k h = ground (arith, text_eq_iff j k, prop-redact_secret es k h)

-- A redacted value is an array or an object only if the value was.
hop_at : (v : Json) (n : ℕ) → hop (at n) (redact v) ≡ Option.map redact (hop (at n) v)
unfolding redact hop
hop_at (arr vs) n = nth-redact_elems vs n
hop_at _ n = refl

hop_public :
    (v : Json) (k : Text)
    → is_secret k ≡ false
    → hop (key k) (redact v) ≡ Option.map redact (hop (key k) v)
unfolding redact hop
hop_public (obj es) k h = prop-redact_entries es k h
hop_public _ k h = refl

hop_secret :
    (v : Json) (k : Text)
    → is_secret k ≡ true
    → hop (key k) (redact v) ≡ Option.map mask (hop (key k) v)
unfolding redact hop
hop_secret (obj es) k h = prop-redact_secret es k h
hop_secret _ k h = refl

pub walk-redact :
    (hs : List Hop) (v : Json) → IsPublic hs → walk hs (redact v) ≡ Option.map redact (walk hs v)
unfolding walk
walk-redact [] v h = refl
walk-redact (at n ∷ hs) v h = elim (Option-cases (hop (at n) v)) [
  | inl e ↦ rw (hop_at v n, e)
  | inr (w, e) ↦ rw (hop_at v n, e) (walk-redact hs w h)
]
walk-redact (key k ∷ hs) v (p, h) = elim (Option-cases (hop (key k) v)) [
  | inl e ↦ rw (hop_public v k p, e)
  | inr (w, e) ↦ rw (hop_public v k p, e) (walk-redact hs w h)
]

abbrev pub size : Elems → ℕ
size nil = 0
size (cons v vs) = suc (size vs)

abbrev pub keys : Entries → List Text
keys end = []
keys (entry k v es) = k ∷ keys es

-- The second value is the first, or an array of the same length or an object of the same keys, in the
-- same order.
abbrev pub IsKept : Json → Json → Type 0
IsKept (arr vs) w = (ws : Elems) × (w ≡ arr ws) × (size ws ≡ size vs)
IsKept (obj es) w = (fs : Entries) × (w ≡ obj fs) × (keys fs ≡ keys es)
IsKept v w = w ≡ v

abbrev pub IsKeptAt : Option Json → Option Json → Type 0
IsKeptAt none o = o ≡ none
IsKeptAt (some v) o = (w : Json) × (o ≡ some w) × IsKept v w

redact_elems-size : (vs : Elems) → size (redact_elems vs) ≡ size vs
unfolding redact
redact_elems-size nil = refl
redact_elems-size (cons v vs) = ap (λ n. suc n) (redact_elems-size vs)

redact_entries-keys : (es : Entries) → keys (redact_entries es) ≡ keys es
unfolding redact
redact_entries-keys end = refl
redact_entries-keys (entry k v es) = ap (λ ks. k ∷ ks) (redact_entries-keys es)

redact-IsKept : (v : Json) → IsKept v (redact v)
unfolding redact
redact-IsKept null = refl
redact-IsKept (bool b) = refl
redact-IsKept (num n) = refl
redact-IsKept (str s) = refl
redact-IsKept (arr vs) = (redact_elems vs, refl, redact_elems-size vs)
redact-IsKept (obj es) = (redact_entries es, refl, redact_entries-keys es)

map-redact-IsKeptAt : (o : Option Json) → IsKeptAt o (Option.map redact o)
map-redact-IsKeptAt none = refl
map-redact-IsKeptAt (some v) = (redact v, refl, redact-IsKept v)

-- Along a path that enters no secret entry, the redacted document has what the document has there: the
-- same null, truth value, number or text, an array of the same length, an object of the same keys in
-- the same order, and nothing where the document has nothing.
pub walk-IsKept :
    (hs : List Hop) (v : Json) → IsPublic hs → IsKeptAt (walk hs v) (walk hs (redact v))
walk-IsKept hs v h =
    subst (IsKeptAt (walk hs v)) (sym (walk-redact hs v h)) (map-redact-IsKeptAt (walk hs v))

abbrev pub reach : List Hop → Text → Json → Option Json
reach hs k v = walk hs v >>= hop (key k)

-- The entry under a secret key, wherever the path to its object leads: in the redacted document it
-- is what `mask` makes of the original entry, and it is absent where the original is.
pub reach-redact :
    (hs : List Hop) (k : Text) (v : Json)
    → IsPublic hs
    → is_secret k ≡ true
    → reach hs k (redact v) ≡ Option.map mask (reach hs k v)
reach-redact hs k v h s = elim (Option-cases (walk hs v)) [
  | inl e ↦ rw (walk-redact hs v h, e)
  | inr (w, e) ↦ rw (walk-redact hs v h, e) (hop_secret w k s)
]
