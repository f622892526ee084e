-- ===== src/Format/Rupees/Parsing.antt =====
-- `Number.parseFloat`: the longest decimal literal at the front of a text, after white space. A text
-- that begins with "Infinity" gives no finite number, and is `none` here like one that gives NaN.
pub mod Plain
use fintech_innova_hack.Prelude.{
  ℕ, suc, ◌+◌, ◌-◌, Bool, true, false, ◌&&◌, ◌||◌, Option, none, some, List, [], ◌∷◌, ◌++◌, ◌==◌,
  if◌then◌else◌, length,
}
use fintech_innova_hack.Prelude.Text.{Text, trim_start}
use fintech_innova_hack.Prelude.Int.{ℤ, pos, negsuc}
use fintech_innova_hack.Format.Decimal.{span_digits, digits_value}

-- The number `mantissa * 10 ^ exponent / 10 ^ scale`, with its sign.
pub record Literal : Type 0 where
  pub negative : Bool
  pub mantissa : ℕ
  pub scale : ℕ
  pub exponent : ℤ

abbrev pub is_nil : Text → Bool
is_nil [] = true
is_nil (c ∷ s) = false

minus : ℕ → ℤ
minus ℕ.zero = pos 0
minus (suc n) = negsuc n

-- Digits after the sign of an exponent; without any there is no exponent.
signed : Bool → Text → ℤ
signed negative ds =
    if is_nil ds
    then pos 0
    else if negative
    then minus (digits_value 0 ds)
    else pos (digits_value 0 ds)

exponent_of : Text → ℤ
exponent_of [] = pos 0
exponent_of (c ∷ s) =
    if c == b'-'
    then signed true (span_digits s).0
    else if c == b'+'
    then signed false (span_digits s).0
    else signed false (span_digits (c ∷ s)).0

read_exponent : Text → ℤ
read_exponent [] = pos 0
read_exponent (c ∷ s) = if c == b'e' || c == b'E' then exponent_of s else pos 0

literal : Bool → Text → Text → Text → Option Literal
literal negative whole fraction rest =
    if is_nil whole && is_nil fraction
    then none
    else some (record {
      negative = negative;
      mantissa = digits_value 0 (whole ++ fraction);
      scale = length fraction;
      exponent = read_exponent rest;
    })

after_whole : Bool → Text → Text → Option Literal
after_whole negative whole [] = literal negative whole [] []
after_whole negative whole (c ∷ s) =
    let (fraction, rest) = span_digits s in
    if c == b'.' then literal negative whole fraction rest else literal negative whole [] (c ∷ s)

read_number : Bool → Text → Option Literal
read_number negative s = let (whole, rest) = span_digits s in after_whole negative whole rest

read_sign : Text → Option Literal
read_sign [] = none
read_sign (c ∷ s) =
    if c == b'-'
    then read_number true s
    else if c == b'+'
    then read_number false s
    else read_number false (c ∷ s)

unfoldable pub parse_float : Text → Option Literal
unfolding read_sign read_number after_whole literal read_exponent exponent_of signed minus
    span_digits digits_value trim_start
parse_float text = read_sign (trim_start text)
