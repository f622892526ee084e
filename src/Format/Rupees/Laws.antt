-- ===== src/Format/Rupees/Laws.antt =====
-- An amount that is shown in a form field is read back as it was, and what small amounts become.
use fintech_innova_hack.Prelude.{
  ℕ, ◌+◌, ◌-◌, ◌*◌, ◌/◌, ◌%◌, ◌^◌, ◌≤◌, ◌<◌, ◌≡◌, ap, ◌∙◌, true, false, some, [], ◌∷◌, ◌++◌, arith,
  append-nil, Bool-cases, inl, inr, ◌==◌, lt→ltb, leb→le, leb, ==_iff,
}
use native.Mathlib.Nat.{add-zero, mul-le-mul_left, mul-le-mul_right}
use fintech_innova_hack.Prelude.Int.{pos}
use fintech_innova_hack.Prelude.Double.{nearest, hundredfold, round_half}
use fintech_innova_hack.Prelude.Double.Laws.{hundredth_back}
use fintech_innova_hack.Format.Decimal.{decimal, digits_value}
use fintech_innova_hack.Format.Rupees.Parsing.{parse_float}
use fintech_innova_hack.Format.Rupees.Parsing.Plain.{plain, parse_float-whole, parse_float-point}
use fintech_innova_hack.Format.Rupees.{
  paise, rupees, rupee_input_value, numerator, denominator, is_finite, is_zero, to_minor,
  rupee_input_to_minor,
}

numerator-plain : (m k : ℕ) → numerator (plain m k) ≡ m
unfolding numerator
numerator-plain m k = omega arith

denominator-plain : (m k : ℕ) → denominator (plain m k) ≡ 10 ^ k
unfolding denominator
denominator-plain m k = rw (add-zero k)

-- A plain literal within range and above zero is rounded.
to_minor-plain :
    (m k : ℕ)
    → is_finite m (10 ^ k) ≡ true
    → is_zero m (10 ^ k) ≡ false
    → to_minor (some (plain m k)) ≡ some (round_half (hundredfold (nearest m (10 ^ k))))
unfolding to_minor
to_minor-plain m k f z = rw (numerator-plain m k, denominator-plain m k, f, z)

is_finite_small : (m d : ℕ) → m < 10 ^ 15 → 0 < d → is_finite m d ≡ true
unfolding is_finite
is_finite_small m d h p = lt→ltb m ((2 ^ 1024 - 2 ^ 970) * d) (omega arith)

is_zero_small : (m d : ℕ) → 0 < m → d ≤ 100 → is_zero m d ≡ false
unfolding is_zero
is_zero_small m d h p = elim (Bool-cases (leb (m * 2 ^ 1075) d)) [
  | inr e ↦ e
  | inl e ↦ absurd (omega (arith, leb→le (m * 2 ^ 1075) d e))
]

-- The literal `m / 10 ^ k` is read as its hundredfold, where that is the whole number `n`.
read_plain :
    (m k n : ℕ)
    → 0 < n
    → n < 10 ^ 15
    → 0 < 10 ^ k
    → 10 ^ k ≤ 100
    → 100 * m ≡ n * 10 ^ k
    → to_minor (some (plain m k)) ≡ some n
read_plain m k n p b d c e =
    let positive : 0 < m = omega (arith, mul-le-mul_right (10 ^ k) p) in
    let small : m < 10 ^ 15 = omega (arith, mul-le-mul_left n c) in
    to_minor-plain m k (is_finite_small m (10 ^ k) small d) (is_zero_small m (10 ^ k) positive c)
    ∙ ap (λ x. some x) (hundredth_back m (10 ^ k) n d c p b e)

-- The three forms of the paise, read with the rupees before them.
read-whole :
    (n : ℕ)
    → 0 < n
    → n < 10 ^ 15
    → n % 100 ≡ 0
    → to_minor (parse_float (decimal (n / 100))) ≡ some n
read-whole n p b e =
    rw (parse_float-whole (n / 100)) (
      read_plain (n / 100) 0 n (omega arith) (omega arith) (omega arith) (omega arith)
        (omega arith))

read-one :
    (n : ℕ)
    → 0 < n
    → n < 10 ^ 15
    → n % 100 % 10 ≡ 0
    → to_minor (parse_float (decimal (n / 100) ++ b'.' ∷ (b'0' + n % 100 / 10) ∷ [])) ≡ some n
unfolding digits_value
read-one n p b e = rw (parse_float-point (n / 100) ((b'0' + n % 100 / 10) ∷ []) (omega arith)) (
    read_plain (n / 100 * 10 + (b'0' + n % 100 / 10 - b'0')) 1 n (omega arith) (omega arith)
      (omega arith) (omega arith) (omega arith))

read-two :
    (n : ℕ)
    → 0 < n
    → n < 10 ^ 15
    → to_minor (
        parse_float
          (decimal (n / 100) ++ b'.' ∷ (b'0' + n % 100 / 10) ∷ (b'0' + n % 100 % 10) ∷ []))
      ≡ some n
unfolding digits_value
read-two n p b =
    rw
      (parse_float-point (n / 100) ((b'0' + n % 100 / 10) ∷ (b'0' + n % 100 % 10) ∷ [])
        (omega arith))
      (read_plain
        ((n / 100 * 10 + (b'0' + n % 100 / 10 - b'0')) * 10 + (b'0' + n % 100 % 10 - b'0')) 2 n
        (omega arith) (omega arith) (omega arith) (omega arith) (omega arith))

to_minor-rupees :
    (n : ℕ)
    → 0 < n
    → n < 10 ^ 15
    → to_minor (parse_float (decimal (n / 100) ++ paise (n % 100))) ≡ some n
unfolding paise
to_minor-rupees n p b = elim (Bool-cases (n % 100 == 0)) [
  | inl whole ↦
      rw (whole, append-nil (decimal (n / 100))) (read-whole n p b ((==_iff (n % 100) 0).0 whole))
  | inr more ↦ elim (Bool-cases (n % 100 % 10 == 0)) [
    | inl tens ↦ rw (more, tens) (read-one n p b ((==_iff (n % 100 % 10) 0).0 tens))
    | inr both ↦ rw (more, both) (read-two n p b)
  ]
]

-- An amount of between one paisa and ten million million rupees that a form field shows is read back
-- as the same number of minor units.
pub rupee_input_to_minor-value :
    (n : ℕ) → 0 < n → n < 10 ^ 15 → rupee_input_to_minor (rupee_input_value (some (pos n))) ≡ some n
rupee_input_to_minor-value n p b =
    unfold rupee_input_value in
    unfold rupees in unfold rupee_input_to_minor in to_minor-rupees n p b
