-- ===== src/Client/Uri.antt =====
-- `encodeURIComponent`: percent-encoded UTF-8, and nothing for a text with half a surrogate pair, where
-- the function throws.
use fintech_innova_hack.Prelude.{
  ℕ, ◌+◌, ◌-◌, ◌*◌, ◌/◌, ◌%◌, ◌≡◌, refl, ◌≢◌, ◌⊎◌, inl, inr, Bool, true, false, ◌&&◌, ◌||◌, Option,
  none, some, List, [], ◌∷◌, ◌++◌, arith, ltb, leb, ◌==◌, if◌then◌else◌, All, All-append,
  Bool-cases,
}
use fintech_innova_hack.Prelude.Text.{Text}
use fintech_innova_hack.Prelude.Text.Laws.{Lacks}
use mathlib.Core.Path.{subst}

unfoldable pub is_unreserved : ℕ → Bool
is_unreserved c =
    (leb b'A' c && leb c b'Z')
    || (leb b'a' c && leb c b'z')
    || (leb b'0' c && leb c b'9')
    || c == b'-'
    || c == b'_'
    || c == b'.'
    || c == b'!'
    || c == b'~'
    || c == b'*'
    || c == 39
    || c == b'('
    || c == b')'

-- The last hexadecimal digit.
hex : ℕ → ℕ
hex n = if ltb (n % 16) 10 then b'0' + n % 16 else b'A' + (n % 16 - 10)

-- The bytes of a code point in UTF-8.
utf8 : ℕ → List ℕ
utf8 c =
    if ltb c 0x80
    then c ∷ []
    else if ltb c 0x800
    then (0xC0 + c / 64) ∷ (0x80 + c % 64) ∷ []
    else if ltb c 0x10000
    then (0xE0 + c / 4096) ∷ (0x80 + c / 64 % 64) ∷ (0x80 + c % 64) ∷ []
    else (0xF0 + c / 262144) ∷ (0x80 + c / 4096 % 64) ∷ (0x80 + c / 64 % 64) ∷ (0x80 + c % 64) ∷ []

escape : List ℕ → Text
unfolding hex
escape [] = []
escape (b ∷ bs) = b'%' ∷ hex (b / 16) ∷ hex b ∷ escape bs

encode_point : ℕ → Text
unfolding is_unreserved escape utf8
encode_point c = if is_unreserved c then c ∷ [] else escape (utf8 c)

is_high : ℕ → Bool
is_high c = leb 0xD800 c && leb c 0xDBFF

is_low : ℕ → Bool
is_low c = leb 0xDC00 c && leb c 0xDFFF

-- The code point of a surrogate pair.
joined : ℕ → ℕ → ℕ
joined high low = 0x10000 + (high - 0xD800) * 1024 + (low - 0xDC00)

-- One unit before a text that is encoded, with the low surrogate, if any, that it begins with.
encode_step : ℕ → Option (Option ℕ × Text) → Option (Option ℕ × Text)
unfolding encode_point is_high is_low joined
encode_step c none = none
encode_step c (some (none, t)) =
    if is_low c
    then some (some c, t)
    else if is_high c
    then none
    else some (none, encode_point c ++ t)
encode_step c (some (some l, t)) =
    if is_high c then some (none, encode_point (joined c l) ++ t) else none

encode_units : Text → Option (Option ℕ × Text)
unfolding encode_step
encode_units [] = some (none, [])
encode_units (c ∷ s) = encode_step c (encode_units s)

finish : Option (Option ℕ × Text) → Option Text
finish (some (none, t)) = some t
finish _ = none

unfoldable pub encode_uri_component : Text → Option Text
unfolding encode_units finish
encode_uri_component s = finish (encode_units s)

-- A unit that an encoded text may hold.
abbrev pub IsUriUnit : ℕ → Type 0
IsUriUnit c = (is_unreserved c ≡ true) ⊎ (c ≡ b'%')

hex-IsUriUnit : (n : ℕ) → IsUriUnit (hex n)
unfolding hex is_unreserved
hex-IsUriUnit n = inl (ground arith)

escape-IsUriUnit : (bs : List ℕ) → All IsUriUnit (escape bs)
unfolding escape
escape-IsUriUnit [] = tt
escape-IsUriUnit (b ∷ bs) =
    (inr refl, (hex-IsUriUnit (b / 16), (hex-IsUriUnit b, escape-IsUriUnit bs)))

encode_point-IsUriUnit : (c : ℕ) → All IsUriUnit (encode_point c)
unfolding encode_point
encode_point-IsUriUnit c = elim (Bool-cases (is_unreserved c)) [
  | inl e ↦ rw e (inl e, tt)
  | inr e ↦ rw e (escape-IsUriUnit (utf8 c))
]

-- What holds of the text encoded so far, whatever waits before it.
AreUriUnits : Option (Option ℕ × Text) → Type 0
AreUriUnits none = Unit
AreUriUnits (some (l, t)) = All IsUriUnit t

encode_step-AreUriUnits :
    (c : ℕ) (r : Option (Option ℕ × Text)) → AreUriUnits r → AreUriUnits (encode_step c r)
unfolding encode_step AreUriUnits
encode_step-AreUriUnits c none h = tt
encode_step-AreUriUnits c (some (none, t)) h = elim (Bool-cases (is_low c)) [
  | inl e ↦ rw e h
  | inr e ↦ elim (Bool-cases (is_high c)) [
    | inl f ↦ rw (e, f) tt
    | inr f ↦ rw (e, f) (All-append IsUriUnit (encode_point c) t (encode_point-IsUriUnit c) h)
  ]
]
encode_step-AreUriUnits c (some (some l, t)) h = elim (Bool-cases (is_high c)) [
  | inl e ↦
      rw e
        (All-append IsUriUnit (encode_point (joined c l)) t (encode_point-IsUriUnit (joined c l)) h)
  | inr e ↦ rw e tt
]

encode_units-AreUriUnits : (s : Text) → AreUriUnits (encode_units s)
unfolding encode_units AreUriUnits
encode_units-AreUriUnits [] = tt
encode_units-AreUriUnits (c ∷ s) =
    encode_step-AreUriUnits c (encode_units s) (encode_units-AreUriUnits s)

finish-IsUriUnit :
    (r : Option (Option ℕ × Text)) (t : Text) → AreUriUnits r → finish r ≡ some t → All IsUriUnit t
unfolding finish AreUriUnits
finish-IsUriUnit none t h e = cc
finish-IsUriUnit (some (some l, u)) t h e = cc
finish-IsUriUnit (some (none, u)) t h e = subst (All IsUriUnit) (cc) h

-- A text that is encoded holds only letters, digits, the signs - _ . ! ~ * ' ( ) and the per cent
-- sign: in particular no slash, question mark or hash.
pub encode_uri_component-IsUriUnit :
    (s t : Text) → encode_uri_component s ≡ some t → All IsUriUnit t
unfolding encode_uri_component
encode_uri_component-IsUriUnit s t e =
    finish-IsUriUnit (encode_units s) t (encode_units-AreUriUnits s) e

pub IsUriUnit-Lacks :
    (c : ℕ) (t : Text) → is_unreserved c ≡ false → c ≢ b'%' → All IsUriUnit t → Lacks c t
IsUriUnit-Lacks c [] n m h = tt
IsUriUnit-Lacks c (d ∷ t) n m (inl u, h) = ((λ e. cc), IsUriUnit-Lacks c t n m h)
IsUriUnit-Lacks c (d ∷ t) n m (inr u, h) = ((λ e. m (cc)), IsUriUnit-Lacks c t n m h)
