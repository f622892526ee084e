-- ===== src/Prelude/Text/Laws.antt =====
-- Laws of the operations on text.
use Prim.Native.Nat.{ℕ}
use mathlib.Core.Path.{◌≡◌, refl}
use mathlib.Core.Logic.{◌↔◌, ◌≢◌, inl, inr}
use mathlib.Core.Bool.{true, false}
use mathlib.Core.List.{List, [], ◌∷◌, ◌++◌}
use native.Mathlib.Omega.{arith}
use fintech_innova_hack.Prelude.Tests.{Bool-cases}
use fintech_innova_hack.Prelude.Lists.{All}
use fintech_innova_hack.Prelude.Text.{Text, text_eq, lower_unit, join, split_parts, split}

pub text_eq_sound : (a b : Text) → text_eq a b ≡ true → a ≡ b
unfolding text_eq
text_eq_sound [] [] h = refl
text_eq_sound [] (d ∷ t) h = cc
text_eq_sound (c ∷ s) [] h = cc
text_eq_sound (c ∷ s) (d ∷ t) h = ground (arith, text_eq_sound s t)

pub text_eq_refl : (a : Text) → text_eq a a ≡ true
unfolding text_eq
text_eq_refl [] = refl
text_eq_refl (c ∷ s) = ground (arith, text_eq_refl s)

pub text_eq_iff : (a b : Text) → (text_eq a b ≡ true) ↔ (a ≡ b)
text_eq_iff a b = (text_eq_sound a b, λ e. rw e (text_eq_refl b))

pub lower_unit_idem : (c : ℕ) → lower_unit (lower_unit c) ≡ lower_unit c
unfolding lower_unit
lower_unit_idem c = ground arith

-- A part without the separator.
abbrev pub Lacks : ℕ → Text → Type 0
Lacks sep s = All (λ c. c ≢ sep) s

split_parts-append :
    (sep : ℕ) (p s : Text)
    → Lacks sep p
    → split_parts sep (p ++ sep ∷ s) ≡ (p, (split_parts sep s).0 ∷ (split_parts sep s).1)
unfolding split_parts
split_parts-append sep [] s h = ground arith
split_parts-append sep (c ∷ p) s (n, h) = ground (arith, split_parts-append sep p s h)

split_parts-Lacks : (sep : ℕ) (p : Text) → Lacks sep p → split_parts sep p ≡ (p, [])
unfolding split_parts
split_parts-Lacks sep [] h = refl
split_parts-Lacks sep (c ∷ p) (n, h) = ground (arith, split_parts-Lacks sep p h)

-- Splitting a joined list of parts gives the parts back, if none holds the separator.
pub split-join :
    (sep : ℕ) (p : Text) (ps : List Text)
    → All (Lacks sep) (p ∷ ps)
    → split sep (join sep (p ∷ ps)) ≡ p ∷ ps
unfolding split join
split-join sep p [] (h, _) = rw (split_parts-Lacks sep p h)
split-join sep p (q ∷ ps) (h, hs) =
    rw (split_parts-append sep p (join sep (q ∷ ps)) h) (ground (arith, split-join sep q ps hs))

-- A text is the literal, or the test for it is false.
pub unless : (P : Text → Type 0) (s t : Text) → P t → (text_eq s t ≡ false → P s) → P s
unless P s t at_t otherwise = elim (Bool-cases (text_eq s t)) [
  | inl e ↦ rw ((text_eq_iff s t).0 e) at_t
  | inr e ↦ otherwise e
]
