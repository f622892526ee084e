-- ===== src/Prelude/Double.antt =====
-- The doubles of JavaScript that are finite and not negative, as fractions with a power of two below:
-- the rounding of IEEE 754 binary64, to the nearest and at a tie to the even one.
pub mod Laws
pub mod Share
use fintech_innova_hack.Prelude.{
  ℕ, zero, suc, ◌+◌, ◌*◌, ◌/◌, ◌%◌, ◌^◌, true, false, ltb, leb, if◌then◌else◌,
}

-- The integer nearest to `n / d`, the even one at a tie.
unfoldable pub round_even : ℕ → ℕ → ℕ
round_even n d =
    if ltb (2 * (n % d)) d
    then n / d
    else if ltb d (2 * (n % d))
    then n / d + 1
    else n / d + n / d % 2

-- How often `n` is doubled, at most `f` times, until `n / d` has 53 bits before the point.
unfoldable pub scale : ℕ → ℕ → ℕ → ℕ
scale zero n d = 0
scale (suc f) n d = elim (leb (2 ^ 52 * d) n) [ true ↦ 0 | false ↦ suc (scale f (2 * n) d) ]

-- How often `d` is doubled, at most `f` times, until `n / d` has no more than 53 bits before the point.
unfoldable pub spread : ℕ → ℕ → ℕ → ℕ
spread zero n d = 0
spread (suc f) n d = elim (ltb n (2 ^ 53 * d)) [ true ↦ 0 | false ↦ suc (spread f n (2 * d)) ]

-- A mantissa of `n / d` scaled by `2 ^ s` or by `2 ^ -e`, with that scale.
unfoldable pub rounded_at : ℕ → ℕ → ℕ → ℕ → ℕ × ℕ
unfolding round_even
rounded_at n d s e = (round_even (n * 2 ^ s) (d * 2 ^ e) * 2 ^ e, 2 ^ s)

-- The double nearest to `n / d`, below the overflow. The least exponent is -1074, the greatest 971.
unfoldable pub nearest : ℕ → ℕ → ℕ × ℕ
unfolding rounded_at scale spread
nearest n d = rounded_at n d (scale 1074 n d) (spread 971 n d)

-- `100 * x`
unfoldable pub hundredfold : ℕ × ℕ → ℕ × ℕ
unfolding nearest
hundredfold (a, b) = nearest (a * 100) b

-- `Math.round`: the nearest integer, upwards at a half.
unfoldable pub round_half : ℕ × ℕ → ℕ
round_half (a, b) = (2 * a + b) / (2 * b)
