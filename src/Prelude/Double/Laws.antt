-- ===== src/Prelude/Double/Laws.antt =====
-- How near a double is to what it stands for.
use native.Mathlib.Nat.{pow-suc, mul-one, mul-le-mul_right, mul-le-mul_left, div-eq_of_lt-le}
use fintech_innova_hack.Prelude.{
  ℕ, zero, suc, ◌+◌, ◌*◌, ◌^◌, ◌≤◌, ◌<◌, ◌≡◌, refl, ap, ◌∙◌, true, false, arith, Bool-cases, inl,
  inr, leb, ltb, leb→le, lt→ltb, ltb→lt, ltb_false→le,
}
use fintech_innova_hack.Prelude.Double.{
  rounded_at, round_even, scale, spread, nearest, hundredfold, round_half,
}

pub round_even-near :
    (n d : ℕ)
    → 0 < d
    → (2 * (round_even n d * d) ≤ 2 * n + d) × (2 * n ≤ 2 * (round_even n d * d) + d)
unfolding round_even
round_even-near n d p = grind arith

spread-none : (f n d : ℕ) → n < 2 ^ 53 * d → spread f n d ≡ 0
unfolding spread
spread-none zero n d h = refl
spread-none (suc f) n d h = rw (spread, lt→ltb n (2 ^ 53 * d) h) refl

scale-done : (f n d : ℕ) → leb (2 ^ 52 * d) n ≡ true → scale (suc f) n d ≡ 0
unfolding scale
scale-done f n d h = rw (scale, h) refl

scale-more : (f n d : ℕ) → leb (2 ^ 52 * d) n ≡ false → scale (suc f) n d ≡ suc (scale f (2 * n) d)
unfolding scale
scale-more f n d h = rw (scale, h) refl

-- Enough fuel scales a quotient up to 53 bits.
pub scale-reaches : (f n d : ℕ) → 2 ^ 52 * d ≤ n * 2 ^ f → 2 ^ 52 * d ≤ n * 2 ^ scale f n d
scale-reaches zero n d h = unfold scale in h
scale-reaches (suc f) n d h = elim (Bool-cases (leb (2 ^ 52 * d) n)) [
  | inl e ↦ rw (scale-done f n d e) (omega (arith, leb→le (2 ^ 52 * d) n e))
  | inr e ↦
      rw (scale-more f n d e, pow-suc 2 (scale f (2 * n) d))
        (omega (arith, scale-reaches f (2 * n) d (omega (arith, h, ap (λ t. n * t) (pow-suc 2 f)))))
]

nearest-at : (n d : ℕ) → nearest n d ≡ rounded_at n d (scale 1074 n d) (spread 971 n d)
unfolding nearest
nearest-at n d = refl

rounded_at-zero : (n d s : ℕ) → rounded_at n d s 0 ≡ (round_even (n * 2 ^ s) d, 2 ^ s)
unfolding rounded_at
rounded_at-zero n d s = rw (mul-one d, mul-one (round_even (n * 2 ^ s) d)) refl

-- A quotient below 2^53 needs no power of two in its denominator.
pub nearest-small :
    (n d : ℕ)
    → n < 2 ^ 53 * d
    → nearest n d ≡ (round_even (n * 2 ^ scale 1074 n d) d, 2 ^ scale 1074 n d)
nearest-small n d h =
    nearest-at n d
    ∙ ap (rounded_at n d (scale 1074 n d)) (spread-none 971 n d h)
    ∙ rounded_at-zero n d (scale 1074 n d)

-- The hundredfold of what is nearest to the hundredth of an integer.
apart_low :
    (a b c k n : ℕ)
    → 200 < b
    → 2 ≤ k
    → n * b ≤ 100 * a + 50
    → 2 * (a * 100 * k) ≤ 2 * (c * b) + b
    → 2 * n * k ≤ 2 * c + k
apart_low a b c k n hb hk hi hi' = elim (Bool-cases (ltb (2 * c + k) (2 * n * k))) [
  | inr e ↦ ltb_false→le (2 * c + k) (2 * n * k) e
  | inl e ↦ absurd (
      omega (
        arith,
        mul-le-mul_right b (ltb→lt (2 * c + k) (2 * n * k) e),
        mul-le-mul_right k hi,
        mul-le-mul_right k hb,
        mul-le-mul_right b hk,
      ))
]

apart_high :
    (a b c k n : ℕ)
    → 200 < b
    → 2 ≤ k
    → 100 * a ≤ n * b + 50
    → 2 * (c * b) ≤ 2 * (a * 100 * k) + b
    → 2 * c < 2 * n * k + k
apart_high a b c k n hb hk lo lo' = elim (Bool-cases (ltb (2 * c) (2 * n * k + k))) [
  | inl e ↦ ltb→lt (2 * c) (2 * n * k + k) e
  | inr e ↦ absurd (
      omega (
        arith,
        mul-le-mul_right b (ltb_false→le (2 * c) (2 * n * k + k) e),
        mul-le-mul_right k lo,
        mul-le-mul_right k hb,
        mul-le-mul_right b hk,
      ))
]

-- What `n / 100` is as `m / d`, and what its scaling gives.
module _ (m d n : ℕ) (pd : 0 < d) (below : n < 10 ^ 15) (same : 100 * m ≡ n * d) where
  below_scaled : n * d ≤ 10 ^ 15 * d
  below_scaled = omega (arith, mul-le-mul_right d below)

  scaled_large : (b : ℕ) → 2 ^ 52 * d ≤ m * b → 200 < b
  scaled_large b h = elim (Bool-cases (ltb 200 b)) [
    | inl e ↦ ltb→lt 200 b e
    | inr e ↦ absurd (
        omega (
          arith,
          mul-le-mul_left (n * d) (ltb_false→le 200 b e),
          ap (λ t. t * b) same,
          below_scaled,
        ))
  ]

  near_low : (a b : ℕ) → 2 * (a * d) ≤ 2 * (m * b) + d → 100 * a ≤ n * b + 50
  near_low a b h = elim (Bool-cases (ltb (n * b + 50) (100 * a))) [
    | inr e ↦ ltb_false→le (n * b + 50) (100 * a) e
    | inl e ↦
        absurd (
          omega (arith, mul-le-mul_right d (ltb→lt (n * b + 50) (100 * a) e), ap (λ t. t * b) same))
  ]

  near_high : (a b : ℕ) → 2 * (m * b) ≤ 2 * (a * d) + d → n * b ≤ 100 * a + 50
  near_high a b h = elim (Bool-cases (ltb (100 * a + 50) (n * b))) [
    | inr e ↦ ltb_false→le (100 * a + 50) (n * b) e
    | inl e ↦
        absurd (
          omega (arith, mul-le-mul_right d (ltb→lt (100 * a + 50) (n * b) e), ap (λ t. t * b) same))
  ]

scaled_twice :
    (a b k n : ℕ) → n < 10 ^ 15 → 200 < b → 100 * a ≤ n * b + 50 → 2 ^ 52 * b ≤ a * 100 * k → 2 ≤ k
scaled_twice a b k n below large lo h = elim (Bool-cases (ltb 1 k)) [
  | inl e ↦ ltb→lt 1 k e
  | inr e ↦
      absurd
        (omega (arith, mul-le-mul_left (a * 100) (ltb_false→le 1 k e), mul-le-mul_right b below))
]

round_half-eq :
    (c k n : ℕ) → 0 < k → 2 * n * k ≤ 2 * c + k → 2 * c < 2 * n * k + k → round_half (c, k) ≡ n
unfolding round_half
round_half-eq c k n p lo hi = div-eq_of_lt-le (2 * k) (omega arith) (omega arith)

pub hundredfold-nearest : (a b : ℕ) → hundredfold (a, b) ≡ nearest (a * 100) b
unfolding hundredfold
hundredfold-nearest a b = refl

-- A double within half a hundredth of `n / 100` has a hundredfold that rounds to `n`.
hundredfold-near :
    (a b n : ℕ)
    → 200 < b
    → 0 < n
    → n < 10 ^ 15
    → 100 * a ≤ n * b + 50
    → n * b ≤ 100 * a + 50
    → round_half (hundredfold (a, b)) ≡ n
hundredfold-near a b n large p below lo hi =
    let k = 2 ^ scale 1074 (a * 100) b in
    let (up, down) = round_even-near (a * 100 * k) b (omega arith) in
    let reached : 2 ^ 52 * b ≤ a * 100 * k =
      scale-reaches 1074 (a * 100) b (omega (arith, mul-le-mul_right b p)) in
    let twice = scaled_twice a b k n below large lo reached in
    ap round_half (
      hundredfold-nearest a b ∙ nearest-small (a * 100) b (omega (arith, mul-le-mul_right b below)))
    ∙ round_half-eq (round_even (a * 100 * k) b) k n (omega arith)
        (apart_low a b (round_even (a * 100 * k) b) k n large twice hi down)
        (apart_high a b (round_even (a * 100 * k) b) k n large twice lo up)

-- The double nearest to `n / 100`, times a hundred and rounded, is `n`: both roundings together stay
-- within a half.
pub hundredth_back :
    (m d n : ℕ)
    → 0 < d
    → d ≤ 100
    → 0 < n
    → n < 10 ^ 15
    → 100 * m ≡ n * d
    → round_half (hundredfold (nearest m d)) ≡ n
hundredth_back m d n pd small p below same =
    let b = 2 ^ scale 1074 m d in
    let (up, down) = round_even-near (m * b) d pd in
    let positive : d ≤ 100 * m = omega (arith, same, mul-le-mul_right d p) in
    let reached : 2 ^ 52 * d ≤ m * b = scale-reaches 1074 m d (omega arith) in
    ap (λ x. round_half (hundredfold x))
      (nearest-small m d (omega (arith, same, below_scaled m d n pd below same)))
    ∙ hundredfold-near (round_even (m * b) d) b n (scaled_large m d n pd below same b reached) p
        below (near_low m d n pd below same (round_even (m * b) d) b up)
        (near_high m d n pd below same (round_even (m * b) d) b down)
