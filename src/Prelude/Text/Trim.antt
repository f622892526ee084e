-- ===== src/Prelude/Text/Trim.antt =====
-- What `trim` leaves of a text.
use mathlib.Core.List.{Memᴰ, reverse, reverse_aux}
use fintech_innova_hack.Prelude.Text.{Text, trim, trim_start, trim_end, is_space}
use fintech_innova_hack.Prelude.Tests.{Bool-cases}
use fintech_innova_hack.Prelude.Lists.{length}
use Prim.Native.Nat.{ℕ, ◌+◌, ◌≤◌}
use mathlib.Core.Path.{◌≡◌, refl, sym, ap, ◌∙◌}
use mathlib.Core.Logic.{◌≢◌, ◌⊎◌, inl, inr}
use mathlib.Core.Bool.{false}
use mathlib.Core.List.{[], ◌∷◌}
use native.Mathlib.Omega.{arith}

length-reverse_aux : (s r : Text) → length (reverse_aux s r) ≡ length s + length r
length-reverse_aux [] r = omega arith
length-reverse_aux (c ∷ s) r = omega (arith, length-reverse_aux s (c ∷ r))

length-trim_start : (s : Text) → length (trim_start s) ≤ length s
unfolding trim_start
length-trim_start [] = omega arith
length-trim_start (c ∷ s) = elim (Bool-cases (is_space c)) [
  | inl e ↦ rw e (omega (arith, length-trim_start s))
  | inr e ↦ rw e (omega arith)
]

pub length-trim : (s : Text) → length (trim s) ≤ length s
unfolding trim trim_end
length-trim s = omega (
  arith,
  length-reverse_aux (trim_start (reverse (trim_start s))) [],
  length-trim_start (reverse (trim_start s)),
  length-reverse_aux (trim_start s) [],
  length-trim_start s,
)

reverse_aux-Memᴰ : (c : ℕ) (s r : Text) → Memᴰ c s ⊎ Memᴰ c r → Memᴰ c (reverse_aux s r)
reverse_aux-Memᴰ c [] r (inl m) = elim m [ ]
reverse_aux-Memᴰ c [] r (inr m) = m
reverse_aux-Memᴰ c (d ∷ s) r (inl (Memᴰ.head e)) = reverse_aux-Memᴰ c s (d ∷ r) (inr (Memᴰ.head e))
reverse_aux-Memᴰ c (d ∷ s) r (inl (Memᴰ.tail m)) = reverse_aux-Memᴰ c s (d ∷ r) (inl m)
reverse_aux-Memᴰ c (d ∷ s) r (inr m) = reverse_aux-Memᴰ c s (d ∷ r) (inr (Memᴰ.tail m))

module _ (c : ℕ) (visible : is_space c ≡ false) where
  trim_start-Memᴰ : (s : Text) → Memᴰ c s → Memᴰ c (trim_start s)
  unfolding trim_start
  trim_start-Memᴰ [] m = elim m [ ]
  trim_start-Memᴰ (d ∷ s) (Memᴰ.head e) = rw (ap is_space (sym e) ∙ visible) (Memᴰ.head e)
  trim_start-Memᴰ (d ∷ s) (Memᴰ.tail m) = elim (Bool-cases (is_space d)) [
    | inl e ↦ rw e (trim_start-Memᴰ s m)
    | inr e ↦ rw e (Memᴰ.tail m)
  ]

  trim-Memᴰ : (s : Text) → Memᴰ c s → Memᴰ c (trim s)
  unfolding trim trim_end
  trim-Memᴰ s m =
      reverse_aux-Memᴰ c _ []
        (inl (trim_start-Memᴰ _ (reverse_aux-Memᴰ c _ [] (inl (trim_start-Memᴰ s m)))))

-- What is left of a text begins with a unit that is no space.
trim_start_cases :
    (s : Text) → (trim_start s ≡ []) ⊎ ((c : ℕ) × Memᴰ c (trim_start s) × (is_space c ≡ false))
unfolding trim_start
trim_start_cases [] = inl refl
trim_start_cases (c ∷ s) = elim (Bool-cases (is_space c)) [
  | inl e ↦ rw e (trim_start_cases s)
  | inr e ↦ inr (c, rw e (Memᴰ.head refl), e)
]

trim_visible : (s : Text) → trim s ≢ [] → (c : ℕ) × Memᴰ c (trim s) × (is_space c ≡ false)
unfolding trim trim_end
trim_visible s full = elim (trim_start_cases (reverse (trim_start s))) [
  | inl e ↦ absurd (full (rw e refl))
  | inr (c, m, v) ↦ (c, reverse_aux-Memᴰ c _ [] (inl m), v)
]

never_nil : (c : ℕ) (s : Text) → Memᴰ c s → s ≢ []
never_nil c [] m e = elim m [ ]
never_nil c (d ∷ s) m e = cc e

pub trim-trim_full : (s : Text) → trim s ≢ [] → trim (trim s) ≢ []
trim-trim_full s full =
    let (c, m, v) = trim_visible s full in never_nil c (trim (trim s)) (trim-Memᴰ c v (trim s) m)
