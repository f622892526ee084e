-- ===== src/Format/Rupees.antt =====
-- The amounts of frontend/lib/format.ts that a person edits: minor units to the text of a form field
-- and back. What is typed is read as a double, and the hundredfold is a double again. An amount that is
-- shown is printed exactly here, as `String` prints the double of one below 10^15 minor units. A text
-- whose hundredfold overflows, 1.8 * 10^306 rupees or more, is beyond the model.
pub mod Parsing
pub mod Laws
mod Examples
use fintech_innova_hack.Prelude.{
  ℕ, suc, ◌+◌, ◌-◌, ◌*◌, ◌/◌, ◌%◌, ◌^◌, ◌<◌, Bool, true, false, not, ◌&&◌, ◌||◌, Option, none, some,
  List, [], ◌∷◌, ◌++◌, ltb, leb, ◌==◌, if◌then◌else◌, length,
}
use fintech_innova_hack.Prelude.Text.{Text, codes}
use fintech_innova_hack.Prelude.Int.{ℤ, pos, negsuc}
use fintech_innova_hack.Prelude.Double.{nearest, hundredfold, round_half}
use fintech_innova_hack.Format.Decimal.{decimal}
use fintech_innova_hack.Format.Rupees.Parsing.{Literal, parse_float}

-- The paise, without a zero at the end.
paise : ℕ → Text
paise r =
    if r == 0
    then []
    else if r % 10 == 0
    then b'.' ∷ (b'0' + r / 10) ∷ []
    else b'.' ∷ (b'0' + r / 10) ∷ (b'0' + r % 10) ∷ []

-- `String(minor / 100)`, of an amount without its sign
unfoldable pub rupees : ℕ → Text
unfolding paise decimal
rupees minor = decimal (minor / 100) ++ paise (minor % 100)

-- The argument is `none` for null, undefined, and what is not finite.
unfoldable pub rupee_input_value : Option ℤ → Text
unfolding rupees
rupee_input_value none = []
rupee_input_value (some (pos n)) = rupees n
rupee_input_value (some (negsuc n)) = b'-' ∷ rupees (suc n)

abbrev up : ℤ → ℕ
up (pos n) = n
up (negsuc n) = 0

abbrev down : ℤ → ℕ
down (pos n) = 0
down (negsuc n) = suc n

-- A literal's magnitude is `numerator / denominator`.
unfoldable pub numerator : Literal → ℕ
numerator l = l.mantissa * 10 ^ up l.exponent

unfoldable pub denominator : Literal → ℕ
denominator l = 10 ^ (l.scale + down l.exponent)

-- Half way to the double after the greatest.
unfoldable pub is_finite : ℕ → ℕ → Bool
is_finite n d = ltb n ((2 ^ 1024 - 2 ^ 970) * d)

-- Up to half the least double, a literal is read as zero.
unfoldable pub is_zero : ℕ → ℕ → Bool
is_zero n d = leb (n * 2 ^ 1075) d

to_minor : Option Literal → Option ℕ
to_minor none = none
to_minor (some l) =
    let n = numerator l in
    let d = denominator l in
    if not (is_finite n d) || is_zero n d || l.negative
    then none
    else some (round_half (hundredfold (nearest n d)))

-- The result is never negative.
unfoldable pub rupee_input_to_minor : Text → Option ℕ
unfolding to_minor parse_float numerator denominator is_finite is_zero nearest hundredfold
    round_half
rupee_input_to_minor text = to_minor (parse_float text)
