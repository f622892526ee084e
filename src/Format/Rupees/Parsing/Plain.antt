-- ===== src/Format/Rupees/Parsing/Plain.antt =====
-- Reading a plain amount: digits, and perhaps a point and more digits.
use fintech_innova_hack.Prelude.{
  ℕ, ◌≡◌, refl, ◌≢◌, false, some, [], ◌∷◌, ◌++◌, arith, All, append-nil, sym, length, ap, ◌≡⟨◌⟩◌,
  ◌∎,
}
use fintech_innova_hack.Prelude.Text.{Text, trim_start}
use fintech_innova_hack.Prelude.Int.{pos}
use fintech_innova_hack.Format.Decimal.{
  decimal, span_digits, digits_value, IsDigit, decimal-IsDigit, decimal_nonempty,
  span_digits-append, digits_value-append, digits_value-decimal,
}
use fintech_innova_hack.Format.Rupees.Parsing.{
  Literal, read_number, after_whole, literal, read_exponent, parse_float,
}

-- Digits in front are neither white space nor a sign.
parse_float-digits :
    (ds rest : Text)
    → All IsDigit ds
    → ds ≢ []
    → parse_float (ds ++ rest) ≡ read_number false (ds ++ rest)
unfolding parse_float trim_start
parse_float-digits [] rest h n = absurd (n refl)
parse_float-digits (d ∷ ds) rest (p, h) n = ground arith

span-all : (ds : Text) → All IsDigit ds → span_digits ds ≡ (ds, [])
span-all ds h = rw (append-nil ds) at (span_digits-append ds [] h tt)

abbrev pub plain : ℕ → ℕ → Literal
plain mantissa scale = record {
  negative = false;
  mantissa = mantissa;
  scale = scale;
  exponent = pos 0;
}

literal-plain :
    (q : ℕ) (fraction : Text)
    → literal false (decimal q) fraction []
      ≡ some (plain (digits_value 0 (decimal q ++ fraction)) (length fraction))
unfolding literal read_exponent
literal-plain q fraction = ground (arith, decimal_nonempty q)

pub parse_float-whole : (q : ℕ) → parse_float (decimal q) ≡ some (plain q 0)
unfolding read_number after_whole
parse_float-whole q =
    parse_float (decimal q)
    ≡⟨ ap parse_float (sym (append-nil (decimal q))) ⟩ parse_float (decimal q ++ [])
    ≡⟨ parse_float-digits (decimal q) [] (decimal-IsDigit q) (decimal_nonempty q) ⟩
      read_number false (decimal q ++ [])
    ≡⟨ (rw (span_digits-append (decimal q) [] (decimal-IsDigit q) tt)) ⟩
      literal false (decimal q) [] []
    ≡⟨ literal-plain q [] ⟩ some (plain (digits_value 0 (decimal q ++ [])) 0)
    ≡⟨ (rw (append-nil (decimal q), digits_value-decimal q)) ⟩ some (plain q 0) ∎

pub parse_float-point :
    (q : ℕ) (fraction : Text)
    → All IsDigit fraction
    → parse_float (decimal q ++ b'.' ∷ fraction)
      ≡ some (plain (digits_value q fraction) (length fraction))
unfolding read_number after_whole
parse_float-point q fraction h =
    parse_float (decimal q ++ b'.' ∷ fraction)
    ≡⟨ parse_float-digits (decimal q) (b'.' ∷ fraction) (decimal-IsDigit q) (decimal_nonempty q) ⟩
      read_number false (decimal q ++ b'.' ∷ fraction)
    ≡⟨ (rw (
      span_digits-append (decimal q) (b'.' ∷ fraction) (decimal-IsDigit q) refl,
      span-all fraction h,
    )) ⟩
      literal false (decimal q) fraction []
    ≡⟨ literal-plain q fraction ⟩
      some (plain (digits_value 0 (decimal q ++ fraction)) (length fraction))
    ≡⟨ (rw (digits_value-append 0 (decimal q) fraction, digits_value-decimal q)) ⟩
      some (plain (digits_value q fraction) (length fraction)) ∎
