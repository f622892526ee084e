-- ===== src/Pages/Meter.antt =====
-- frontend/components/ui/meter.tsx: the bar of a share. A width is a double, as a fraction, its numerator
-- first. The figures are integers that a double holds, and so they are finite.
use mathlib.Core.Path.{subst}
use native.Mathlib.Nat.{mul-le-mul_right}
use fintech_innova_hack.Prelude.{
  ℕ, suc, ◌+◌, ◌*◌, ◌^◌, ◌≤◌, ◌<◌, ◌≡◌, refl, sym, ap, ◌∙◌, inl, inr, Option, none, some, arith,
  ltb, ltb→lt, ltb_false→le, Bool-cases, if◌then◌else◌,
}
use fintech_innova_hack.Prelude.Int.{ℤ, pos, negsuc}
use fintech_innova_hack.Prelude.Double.{nearest, hundredfold, round_half}
use fintech_innova_hack.Prelude.Double.Share.{Share, share, share_full, share_high, share_low}

pub record Bar : Type 0 where
  pub width : ℕ × ℕ
  pub value_now : ℕ

-- `Math.min(100, x)`
at_most_full : ℕ × ℕ → ℕ × ℕ
at_most_full (a, b) = if ltb (100 * b) a then (100, 1) else (a, b)

-- `Math.min(100, Math.max(0, (value / max) * 100))`
clamped : ℤ → ℕ → ℕ × ℕ
unfolding at_most_full nearest hundredfold
clamped (negsuc n) max = (0, 1)
clamped (pos n) max = at_most_full (hundredfold (nearest n max))

-- The track is drawn without a bar where either figure is missing, or the whole is not positive.
unfoldable pub meter : (value max : Option ℤ) → Option Bar
unfolding clamped round_half
meter (some v) (some (pos (suc m))) =
    some (record { width = clamped v (suc m); value_now = round_half (clamped v (suc m)) })
meter _ _ = none

-- A width `w` and a number `n` for a value `v` in a whole `m`.
pub record IsDrawn (v m : ℕ) (w : ℕ × ℕ) (n : ℕ) : Type 0 where
  pub proper : 0 < w.1
  pub within : w.0 ≤ 100 * w.1
  pub full : m ≤ v → w.0 ≡ 100 * w.1
  pub near_high : v ≤ m → 2 ^ 40 * (w.0 * m) ≤ 2 ^ 40 * (100 * v * w.1) + m * w.1
  pub near_low : v ≤ m → 2 ^ 40 * (100 * v * w.1) ≤ 2 ^ 40 * (w.0 * m) + m * w.1
  pub announced_low : 2 * w.1 * n ≤ 2 * w.0 + w.1
  pub announced_high : 2 * w.0 + w.1 < 2 * w.1 * n + 2 * w.1
  pub at_most : n ≤ 100

round_half-near :
    (a b : ℕ)
    → 0 < b
    → (2 * b * round_half (a, b) ≤ 2 * a + b) × (2 * a + b < 2 * b * round_half (a, b) + 2 * b)
unfolding round_half
round_half-near a b p = grind arith

round_half-le : (a b : ℕ) → 0 < b → a ≤ 100 * b → round_half (a, b) ≤ 100
unfolding round_half
round_half-le a b p h = grind arith

module _ (v m : ℕ) (pv : 0 < v) (hv : v < 2 ^ 46) (pm : 0 < m) (hm : m < 2 ^ 53)
    (s : Share v m) where
  -- The width is cut to a hundred.
  cut_high : v ≤ m → 100 * s.k ≤ s.c → 2 ^ 40 * (100 * m) ≤ 2 ^ 40 * (100 * v * 1) + m * 1
  cut_high h over = elim (Bool-cases (ltb (2 ^ 40 * (100 * v * 1) + m * 1) (2 ^ 40 * (100 * m)))) [
    | inr e ↦ ltb_false→le (2 ^ 40 * (100 * v * 1) + m * 1) (2 ^ 40 * (100 * m)) e
    | inl e ↦ absurd (
        omega (
          arith,
          s.k_pos,
          share_high v m pv hv pm hm h s,
          mul-le-mul_right m over,
          mul-le-mul_right s.k (ltb→lt (2 ^ 40 * (100 * v * 1) + m * 1) (2 ^ 40 * (100 * m)) e),
        ))
  ]

  cut : 100 * s.k ≤ s.c → IsDrawn v m (100, 1) (round_half (100, 1))
  cut over = record {
    proper = omega arith;
    within = omega arith;
    full = λ h. refl;
    near_high = λ h. cut_high h over;
    near_low = λ h. omega arith;
    announced_low = (round_half-near 100 1 (omega arith)).0;
    announced_high = (round_half-near 100 1 (omega arith)).1;
    at_most = round_half-le 100 1 (omega arith) (omega arith);
  }

  uncut : s.c ≤ 100 * s.k → IsDrawn v m (s.c, s.k) (round_half (s.c, s.k))
  uncut under = record {
    proper = s.k_pos;
    within = under;
    full = λ h. omega (arith, share_full v m pv hv pm hm h s);
    near_high = λ h. share_high v m pv hv pm hm h s;
    near_low = λ h. share_low v m pv hv pm hm h s;
    announced_low = (round_half-near s.c s.k s.k_pos).0;
    announced_high = (round_half-near s.c s.k s.k_pos).1;
    at_most = round_half-le s.c s.k s.k_pos under;
  }

  fitted : IsDrawn v m (at_most_full (s.c, s.k)) (round_half (at_most_full (s.c, s.k)))
  unfolding at_most_full
  fitted = elim (Bool-cases (ltb (100 * s.k) s.c)) [
    | inl e ↦ rw e (cut (omega (arith, ltb→lt (100 * s.k) s.c e)))
    | inr e ↦ rw e (uncut (ltb_false→le (100 * s.k) s.c e))
  ]

clamped-pos : (v m : ℕ) → clamped (pos v) m ≡ at_most_full (hundredfold (nearest v m))
unfolding clamped
clamped-pos v m = refl

clamped-IsDrawn :
    (v m : ℕ)
    → 0 < v
    → v < 2 ^ 46
    → 0 < m
    → m < 2 ^ 53
    → IsDrawn v m (clamped (pos v) m) (round_half (clamped (pos v) m))
clamped-IsDrawn v m pv hv pm hm =
    let s = share v m pv hv pm hm in
    subst (λ w. IsDrawn v m w (round_half w)) (sym (clamped-pos v m ∙ ap at_most_full s.is_share))
      (fitted v m pv hv pm hm s)

drawn_bar :
    (v m : ℕ) (b : Bar)
    → meter (some (pos v)) (some (pos (suc m))) ≡ some b
    → record { width = clamped (pos v) (suc m); value_now = round_half (clamped (pos v) (suc m)) }
      ≡ b
unfolding meter
drawn_bar v m b e = cc e

-- The bar of a value above zero and below 2^46, in a whole below 2^53, with the roundings of the doubles:
-- it lies within its track, is full if the value is the whole or more, and is within 2^-40 of the exact
-- share in hundredths if the value is the whole or less; the number that is announced is the whole one
-- nearest to the bar's width, upwards at a half, and a hundred at most.
pub meter_bounds :
    (v m : ℕ) (b : Bar)
    → 0 < v
    → v < 2 ^ 46
    → suc m < 2 ^ 53
    → meter (some (pos v)) (some (pos (suc m))) ≡ some b
    → IsDrawn v (suc m) b.width b.value_now
meter_bounds v m b pv hv hm e =
    let w = clamped (pos v) (suc m) in
    let same : record { width = w; value_now = round_half w } ≡ b = drawn_bar v m b e in
    subst (λ (b : Bar). IsDrawn v (suc m) b.width b.value_now) same
      (clamped-IsDrawn v (suc m) pv hv (omega arith) hm)
