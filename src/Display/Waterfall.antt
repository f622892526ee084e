-- ===== src/Display/Waterfall.antt =====
-- frontend/components/vaults/waterfall.tsx: the bars of a repayment. A share is a fraction of a hundred,
-- its numerator first; the code divides doubles.
use mathlib.Core.Path.{subst}
use fintech_innova_hack.Prelude.{
  ℕ, suc, ◌+◌, ◌*◌, ◌≤◌, ◌<◌, ◌≡◌, refl, ◌≢◌, inl, inr, not, List, [], ◌∷◌, map, keep, All, arith,
  ltb, ◌==◌, if◌then◌else◌, Bool-cases, ==_iff,
}
use fintech_innova_hack.Prelude.Members.{Memᴰ-keep, All_intro}
use fintech_innova_hack.Prelude.Text.{Text}
use fintech_innova_hack.Prelude.Int.{ℤ, pos, negsuc}
use fintech_innova_hack.Types.Vaults.{WaterfallAllocation}

-- `Math.abs`
unfoldable pub magnitude : ℤ → ℕ
magnitude (pos n) = n
magnitude (negsuc n) = suc n

-- The allocations of an amount other than 0.
unfoldable pub drawn_steps : List WaterfallAllocation → List WaterfallAllocation
unfolding magnitude
drawn_steps allocations = keep (λ a. not (magnitude a.amount_minor == 0)) allocations

unfoldable pub total_of : List WaterfallAllocation → ℕ
unfolding magnitude
total_of [] = 0
total_of (a ∷ rest) = magnitude a.amount_minor + total_of rest

pub record Bar : Type 0 where
  pub step : Text
  pub amount_minor : ℤ
  pub share : ℕ × ℕ
  pub width : ℕ × ℕ

share_of : ℕ → ℤ → ℕ × ℕ
unfolding magnitude
share_of total amount = if total == 0 then (0, 1) else (magnitude amount * 100, total)

-- `Math.max(share, 4)`
at_least_four : ℕ × ℕ → ℕ × ℕ
at_least_four (n, d) = if ltb n (4 * d) then (4, 1) else (n, d)

unfoldable pub bar_of : ℕ → WaterfallAllocation → Bar
unfolding share_of at_least_four
bar_of total a = record {
  step = a.step;
  amount_minor = a.amount_minor;
  share = share_of total a.amount_minor;
  width = at_least_four (share_of total a.amount_minor);
}

-- No bar where nothing was allocated.
unfoldable pub bars : List WaterfallAllocation → List Bar
unfolding drawn_steps total_of bar_of
bars allocations = let steps = drawn_steps allocations in map (bar_of (total_of steps)) steps

unfoldable pub numerators : List Bar → ℕ
numerators [] = 0
numerators (b ∷ bs) = b.share.0 + numerators bs

total-keep : (xs : List WaterfallAllocation) → total_of (drawn_steps xs) ≡ total_of xs
unfolding total_of drawn_steps
total-keep [] = refl
total-keep (a ∷ rest) = ground (arith, total-keep rest)

abbrev IsDrawn : WaterfallAllocation → Type 0
IsDrawn a = magnitude a.amount_minor ≢ 0

drawn_steps-IsDrawn : (xs : List WaterfallAllocation) → All IsDrawn (drawn_steps xs)
unfolding drawn_steps
drawn_steps-IsDrawn xs = All_intro IsDrawn (drawn_steps xs) (λ a m e.
    let (_, kept) = Memᴰ-keep (λ a. not (magnitude a.amount_minor == 0)) a xs m in
    cc (kept, (==_iff (magnitude a.amount_minor) 0).1 e))

-- A share of the total, above nothing and of a hundred at most.
abbrev pub IsPart : ℕ → Bar → Type 0
IsPart total b = (0 < b.share.0) × (b.share.0 ≤ 100 * b.share.1) × (b.share.1 ≡ total)

module _ (total : ℕ) (positive : total ≢ 0) where
  share_whole : (amount : ℤ) → share_of total amount ≡ (magnitude amount * 100, total)
  unfolding share_of
  share_whole amount = elim (Bool-cases (total == 0)) [
    | inl e ↦ absurd (positive ((==_iff total 0).0 e))
    | inr e ↦ rw e refl
  ]

  numerators-map :
      (ys : List WaterfallAllocation) → numerators (map (bar_of total) ys) ≡ total_of ys * 100
  unfolding numerators total_of bar_of
  numerators-map [] = omega arith
  numerators-map (a ∷ rest) = rw (share_whole a.amount_minor) (omega (arith, numerators-map rest))

  bars-IsPart :
      (ys : List WaterfallAllocation)
      → All IsDrawn ys
      → total_of ys ≤ total
      → All (IsPart total) (map (bar_of total) ys)
  unfolding total_of bar_of
  bars-IsPart [] h le = tt
  bars-IsPart (a ∷ rest) (d, h) le = (
    rw (share_whole a.amount_minor) (ground (arith, d), omega arith, refl),
    bars-IsPart rest h (omega arith),
  )

total_positive :
    (y : WaterfallAllocation) (ys : List WaterfallAllocation) → IsDrawn y → total_of (y ∷ ys) ≢ 0
unfolding total_of
total_positive y ys d e = d (omega arith)

parts :
    (ys : List WaterfallAllocation)
    → All IsDrawn ys
    → (numerators (map (bar_of (total_of ys)) ys) ≡ total_of ys * 100)
      × All (IsPart (total_of ys)) (map (bar_of (total_of ys)) ys)
unfolding numerators total_of
parts [] h = (omega arith, tt)
parts (y ∷ ys) (d, h) =
    let positive = total_positive y ys d in
    (
      numerators-map (total_of (y ∷ ys)) positive (y ∷ ys),
      bars-IsPart (total_of (y ∷ ys)) positive (y ∷ ys) (d, h) (omega arith),
    )

-- The shares of the bars are fractions of the whole that was allocated, each above nothing and a hundred
-- at most, and together they are a hundred.
pub bars-share :
    (xs : List WaterfallAllocation)
    → (numerators (bars xs) ≡ total_of xs * 100) × All (IsPart (total_of xs)) (bars xs)
unfolding bars
bars-share xs =
    subst (λ t. (numerators (bars xs) ≡ t * 100) × All (IsPart t) (bars xs)) (total-keep xs)
      (parts (drawn_steps xs) (drawn_steps-IsDrawn xs))
