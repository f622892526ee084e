-- ===== src/Prelude/Double/Share.antt =====
-- The share of an integer in another, in hundredths, as two roundings of doubles give it.
use native.Mathlib.Nat.{mul-le-mul_left, mul-le-mul_right}
use fintech_innova_hack.Prelude.{
  ℕ, ◌+◌, ◌*◌, ◌^◌, ◌≤◌, ◌<◌, ◌≡◌, ap, ◌∙◌, arith, Bool-cases, inl, inr, ltb, ltb→lt, ltb_false→le,
}
use fintech_innova_hack.Prelude.Double.{round_even, scale, nearest, hundredfold}
use fintech_innova_hack.Prelude.Double.Laws.{
  round_even-near, scale-reaches, nearest-small, hundredfold-nearest,
}

round_even-floor : (q n d : ℕ) → 0 < d → q * d ≤ n → q ≤ round_even n d
unfolding round_even
round_even-floor q n d p h = grind arith

factor_pos : (x y : ℕ) → 0 < x * y → 0 < y
factor_pos x y h = elim (Bool-cases (ltb 0 y)) [
  | inl e ↦ ltb→lt 0 y e
  | inr e ↦ absurd (omega (arith, mul-le-mul_left x (ltb_false→le 0 y e)))
]

-- The quotient is `a / b`, its hundredfold `c / k`.
pub record Share (v m : ℕ) : Type 0 where
  pub a : ℕ
  pub b : ℕ
  pub c : ℕ
  pub k : ℕ
  pub is_share : hundredfold (nearest v m) ≡ (c, k)
  pub b_pos : 0 < b
  pub k_pos : 0 < k
  pub a_low : 2 * (v * b) ≤ 2 * (a * m) + m
  pub a_high : 2 * (a * m) ≤ 2 * (v * b) + m
  pub a_floor : (q : ℕ) → q * m ≤ v * b → q ≤ a
  pub b_large : 2 ^ 52 * m ≤ v * b
  pub c_low : 2 * (a * 100 * k) ≤ 2 * (c * b) + b
  pub c_high : 2 * (c * b) ≤ 2 * (a * 100 * k) + b
  pub c_floor : (q : ℕ) → q * b ≤ a * 100 * k → q ≤ c
  pub k_large : 2 ^ 52 * b ≤ a * 100 * k

module _ (v m : ℕ) (pv : 0 < v) (hv : v < 2 ^ 46) (pm : 0 < m) (hm : m < 2 ^ 53) where
  module _ (a b : ℕ) (low : 2 * (v * b) ≤ 2 * (a * m) + m) (high : 2 * (a * m) ≤ 2 * (v * b) + m)
      (large : 2 ^ 52 * m ≤ v * b) (pb : 0 < b) where
    quotient_small : a * 100 < 2 ^ 53 * b
    quotient_small = elim (Bool-cases (ltb (a * 100) (2 ^ 53 * b))) [
      | inl e ↦ ltb→lt (a * 100) (2 ^ 53 * b) e
      | inr e ↦ absurd (
          omega (
            arith,
            mul-le-mul_right m (ltb_false→le (a * 100) (2 ^ 53 * b) e),
            mul-le-mul_right b hv,
            mul-le-mul_right b pm,
            mul-le-mul_right m pb,
          ))
    ]

    quotient_reaches : 2 ^ 52 * b ≤ a * 100 * 2 ^ 1074
    quotient_reaches = omega (arith, mul-le-mul_left a hm, mul-le-mul_right b pv)

  pub share : Share v m
  share =
      let b = 2 ^ scale 1074 v m in
      let a = round_even (v * b) m in
      let k = 2 ^ scale 1074 (a * 100) b in
      let large : 2 ^ 52 * m ≤ v * b = scale-reaches 1074 v m (omega arith) in
      let (high, low) = round_even-near (v * b) m pm in
      let pb : 0 < b = factor_pos v b (omega arith) in
      let more = scale-reaches 1074 (a * 100) b (quotient_reaches a b low high large pb) in
      let (high', low') = round_even-near (a * 100 * k) b pb in
      record {
        a = a;
        b = b;
        c = round_even (a * 100 * k) b;
        k = k;
        is_share =
            ap hundredfold (nearest-small v m (omega arith))
            ∙ hundredfold-nearest a b
            ∙ nearest-small (a * 100) b (quotient_small a b low high large pb);
        b_pos = pb;
        k_pos = factor_pos (a * 100) k (omega arith);
        a_low = low;
        a_high = high;
        a_floor = λ q h. round_even-floor q (v * b) m pm h;
        b_large = large;
        c_low = low';
        c_high = high';
        c_floor = λ q h. round_even-floor q (a * 100 * k) b pb h;
        k_large = more;
      }

  pub share_full : m ≤ v → (s : Share v m) → 100 * s.k ≤ s.c
  share_full h s =
      let whole : s.b ≤ s.a = s.a_floor s.b (omega (arith, mul-le-mul_right s.b h)) in
      s.c_floor (100 * s.k) (omega (arith, mul-le-mul_right s.k whole))

  module _ (h : v ≤ m) (s : Share v m) where
    b_great : 2 ^ 52 ≤ s.b
    b_great = elim (Bool-cases (ltb s.b (2 ^ 52))) [
      | inr e ↦ ltb_false→le s.b (2 ^ 52) e
      | inl e ↦ absurd (
          omega
            (arith, s.b_large, mul-le-mul_right s.b h, mul-le-mul_left m (ltb→lt s.b (2 ^ 52) e)))
    ]

    a_le-b : s.a ≤ s.b
    a_le-b = elim (Bool-cases (ltb s.b s.a)) [
      | inr e ↦ ltb_false→le s.b s.a e
      | inl e ↦
          absurd
            (omega (arith, s.a_high, mul-le-mul_right s.b h, mul-le-mul_right m (ltb→lt s.b s.a e)))
    ]

    k_great : 2 ^ 42 ≤ s.k
    k_great = elim (Bool-cases (ltb s.k (2 ^ 42))) [
      | inr e ↦ ltb_false→le s.k (2 ^ 42) e
      | inl e ↦ absurd (
          omega (
            arith,
            s.k_large,
            s.b_pos,
            mul-le-mul_right s.k a_le-b,
            mul-le-mul_left s.b (ltb→lt s.k (2 ^ 42) e),
          ))
    ]

    -- The hundredfold is within 2^-40 of the exact one.
    pub share_high : 2 ^ 40 * (s.c * m) ≤ 2 ^ 40 * (100 * v * s.k) + m * s.k
    share_high = elim (Bool-cases (ltb (2 ^ 40 * (100 * v * s.k) + m * s.k) (2 ^ 40 * (s.c * m)))) [
      | inr e ↦ ltb_false→le (2 ^ 40 * (100 * v * s.k) + m * s.k) (2 ^ 40 * (s.c * m)) e
      | inl e ↦ absurd (
          omega (
            arith,
            mul-le-mul_right s.b
                (ltb→lt (2 ^ 40 * (100 * v * s.k) + m * s.k) (2 ^ 40 * (s.c * m)) e),
            mul-le-mul_right m s.c_high,
            mul-le-mul_right s.k s.a_high,
            mul-le-mul_right (m * s.k) b_great,
            mul-le-mul_right (m * s.b) k_great,
            s.b_pos,
          ))
    ]

    pub share_low : 2 ^ 40 * (100 * v * s.k) ≤ 2 ^ 40 * (s.c * m) + m * s.k
    share_low = elim (Bool-cases (ltb (2 ^ 40 * (s.c * m) + m * s.k) (2 ^ 40 * (100 * v * s.k)))) [
      | inr e ↦ ltb_false→le (2 ^ 40 * (s.c * m) + m * s.k) (2 ^ 40 * (100 * v * s.k)) e
      | inl e ↦ absurd (
          omega (
            arith,
            mul-le-mul_right s.b
                (ltb→lt (2 ^ 40 * (s.c * m) + m * s.k) (2 ^ 40 * (100 * v * s.k)) e),
            mul-le-mul_right m s.c_low,
            mul-le-mul_right s.k s.a_low,
            mul-le-mul_right (m * s.k) b_great,
            mul-le-mul_right (m * s.b) k_great,
            s.b_pos,
          ))
    ]
