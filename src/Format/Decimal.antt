-- ===== src/Format/Decimal.antt =====
-- Decimal digits: `String(n)` of a natural number, and reading digits back.
use fintech_innova_hack.Prelude.{
  ℕ, zero, suc, ◌+◌, ◌-◌, ◌*◌, ◌/◌, ◌%◌, ◌≤◌, ◌<◌, ◌≡◌, refl, ◌≢◌, inl, inr, Bool, false, ◌&&◌, [],
  ◌∷◌, ◌++◌, arith, ltb, leb, if◌then◌else◌, All, All-append, Bool-cases,
}
use fintech_innova_hack.Prelude.Text.{Text}

-- The digits of a number below `fuel`, the highest first.
digits_within : ℕ → ℕ → Text
digits_within zero n = []
digits_within (suc fuel) n =
    let front = digits_within fuel (n / 10) in
    if ltb n 10 then (b'0' + n) ∷ [] else front ++ (b'0' + n % 10) ∷ []

unfoldable pub decimal : ℕ → Text
unfolding digits_within
decimal n = digits_within (suc n) n

abbrev pub is_digit : ℕ → Bool
is_digit c = leb b'0' c && leb c b'9'

-- The digits in front, and the rest.
unfoldable pub span_digits : Text → Text × Text
span_digits [] = ([], [])
span_digits (c ∷ s) =
    let (ds, rest) = span_digits s in if is_digit c then (c ∷ ds, rest) else ([], c ∷ s)

-- The number that digits stand for, after those read before.
unfoldable pub digits_value : ℕ → Text → ℕ
digits_value acc [] = acc
digits_value acc (d ∷ ds) = digits_value (acc * 10 + (d - b'0')) ds

pub digits_value-append :
    (acc : ℕ) (xs ys : Text) → digits_value acc (xs ++ ys) ≡ digits_value (digits_value acc xs) ys
unfolding digits_value
digits_value-append acc [] ys = refl
digits_value-append acc (x ∷ xs) ys = digits_value-append (acc * 10 + (x - b'0')) xs ys

-- `digits_within` with enough fuel.
digits_within_value : (fuel n : ℕ) → n < fuel → digits_value 0 (digits_within fuel n) ≡ n
unfolding digits_within digits_value
digits_within_value zero n h = absurd (omega arith)
digits_within_value (suc fuel) n h = elim (Bool-cases (ltb n 10)) [
  | inl small ↦ rw small (omega arith)
  | inr large ↦
      rw
        (
          large,
          digits_value-append 0 (digits_within fuel (n / 10)) ((b'0' + n % 10) ∷ []),
          digits_within_value fuel (n / 10) (ground arith),
        )
        (ground arith)
]

pub digits_value-decimal : (n : ℕ) → digits_value 0 (decimal n) ≡ n
unfolding decimal
digits_value-decimal n = digits_within_value (suc n) n (omega arith)

abbrev pub IsDigit : ℕ → Type 0
IsDigit c = (b'0' ≤ c) × (c ≤ b'9')

digits_within-IsDigit : (fuel n : ℕ) → All IsDigit (digits_within fuel n)
unfolding digits_within
digits_within-IsDigit zero n = tt
digits_within-IsDigit (suc fuel) n = elim (Bool-cases (ltb n 10)) [
  | inl small ↦ rw small (ground arith)
  | inr large ↦ rw large (
      All-append IsDigit (digits_within fuel (n / 10)) ((b'0' + n % 10) ∷ [])
        (digits_within-IsDigit fuel (n / 10)) (omega arith))
]

pub decimal-IsDigit : (n : ℕ) → All IsDigit (decimal n)
unfolding decimal
decimal-IsDigit n = digits_within-IsDigit (suc n) n

pub decimal_nonempty : (n : ℕ) → decimal n ≢ []
unfolding decimal digits_within
decimal_nonempty n = elim (Bool-cases (ltb n 10)) [
  | inl small ↦ rw small (cc)
  | inr large ↦ rw large (not_nil (digits_within n (n / 10)) (b'0' + n % 10))
]
  where
    not_nil : (xs : Text) (c : ℕ) → xs ++ c ∷ [] ≢ []
    not_nil [] c = cc
    not_nil (x ∷ xs) c = cc

-- A text that does not go on with a digit.
abbrev pub StopsDigits : Text → Type 0
StopsDigits [] = Unit
StopsDigits (c ∷ s) = is_digit c ≡ false

pub span_digits-append :
    (ds rest : Text) → All IsDigit ds → StopsDigits rest → span_digits (ds ++ rest) ≡ (ds, rest)
unfolding span_digits
span_digits-append [] [] h stop = refl
span_digits-append [] (c ∷ s) h stop = rw stop
span_digits-append (d ∷ ds) rest (p, h) stop = ground (arith, span_digits-append ds rest h stop)

pub span-decimal :
    (n : ℕ) (rest : Text) → StopsDigits rest → span_digits (decimal n ++ rest) ≡ (decimal n, rest)
span-decimal n rest stop = span_digits-append (decimal n) rest (decimal-IsDigit n) stop
