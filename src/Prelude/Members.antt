-- ===== src/Prelude/Members.antt =====
-- What is in a list that is filtered, cut off or mapped.

use fintech_innova_hack.Prelude.Tests.{Bool-cases}
use fintech_innova_hack.Prelude.Lists.{length, keep, take, find, All}
use Prim.Native.Nat.{ℕ, zero, suc}
use mathlib.Core.Path.{subst, ◌≡◌, refl, sym, ap, ◌∙◌}
use mathlib.Core.Logic.{◌⊎◌, inl, inr}
use mathlib.Core.Bool.{Bool, true, false}
use mathlib.Core.Option.{some}
use mathlib.Core.List.{Memᴰ, List, [], ◌∷◌, map}

module _ {ℓ} {A : Type ℓ} where
  pub keep-true :
      (p : A → Bool) (x : A) (xs : List A) → p x ≡ true → keep p (x ∷ xs) ≡ x ∷ keep p xs
  keep-true p x xs e = rw (e, keep) refl

  pub keep-false : (p : A → Bool) (x : A) (xs : List A) → p x ≡ false → keep p (x ∷ xs) ≡ keep p xs
  keep-false p x xs e = rw (e, keep) refl

  Memᴰ_cases : (x y : A) (ys : List A) → Memᴰ x (y ∷ ys) → (x ≡ y) ⊎ Memᴰ x ys
  Memᴰ_cases x y ys (Memᴰ.head h) = inl h
  Memᴰ_cases x y ys (Memᴰ.tail m) = inr m

  -- What is kept was there, and passes the test.
  pub Memᴰ-keep :
      (p : A → Bool) (x : A) (xs : List A) → Memᴰ x (keep p xs) → Memᴰ x xs × (p x ≡ true)
  Memᴰ-keep p x [] m = elim m [ ]
  Memᴰ-keep p x (y ∷ ys) m = elim (Bool-cases (p y)) [
    | inr e ↦
        let (n, q) = Memᴰ-keep p x ys (subst (λ l. Memᴰ x l) (keep-false p y ys e) m) in
        (Memᴰ.tail n, q)
    | inl e ↦ elim (Memᴰ_cases x y (keep p ys) (subst (λ l. Memᴰ x l) (keep-true p y ys e) m)) [
      | inl h ↦ (Memᴰ.head h, ap p h ∙ e)
      | inr n ↦ let (k, q) = Memᴰ-keep p x ys n in (Memᴰ.tail k, q)
    ]
  ]

  pub keep-Memᴰ : (p : A → Bool) (x : A) (xs : List A) → Memᴰ x xs → p x ≡ true → Memᴰ x (keep p xs)
  keep-Memᴰ p x [] m e = elim m [ ]
  keep-Memᴰ p x (y ∷ ys) (Memᴰ.head h) e =
      subst (λ l. Memᴰ x l) (sym (keep-true p y ys (ap p (sym h) ∙ e))) (Memᴰ.head h)
  keep-Memᴰ p x (y ∷ ys) (Memᴰ.tail m) e = elim (Bool-cases (p y)) [
    | inl f ↦ subst (λ l. Memᴰ x l) (sym (keep-true p y ys f)) (Memᴰ.tail (keep-Memᴰ p x ys m e))
    | inr f ↦ subst (λ l. Memᴰ x l) (sym (keep-false p y ys f)) (keep-Memᴰ p x ys m e)
  ]

  pub find_sound :
      (p : A → Bool) (x : A) (xs : List A) → find p xs ≡ some x → Memᴰ x xs × (p x ≡ true)
  find_sound p x [] e = absurd (cc e)
  find_sound p x (y ∷ ys) e = elim (Bool-cases (p y)) [
    | inl f ↦
        let same : y ≡ x = cc (rw (f, find) at e) in (Memᴰ.head (sym same), ap p (sym same) ∙ f)
    | inr f ↦ let (m, q) = find_sound p x ys (rw (f, find) at e) in (Memᴰ.tail m, q)
  ]

  pub Memᴰ-take : (n : ℕ) (x : A) (xs : List A) → Memᴰ x (take n xs) → Memᴰ x xs
  Memᴰ-take zero x xs m = elim m [ ]
  Memᴰ-take (suc n) x [] m = elim m [ ]
  Memᴰ-take (suc n) x (y ∷ ys) (Memᴰ.head h) = Memᴰ.head h
  Memᴰ-take (suc n) x (y ∷ ys) (Memᴰ.tail m) = Memᴰ.tail (Memᴰ-take n x ys m)

module _ {ℓ κ} {A : Type ℓ} {B : Type κ} (f : A → B) where
  pub Memᴰ-map : (y : B) (xs : List A) → Memᴰ y (map f xs) → (x : A) × Memᴰ x xs × (y ≡ f x)
  Memᴰ-map y [] m = elim m [ ]
  Memᴰ-map y (x ∷ xs) (Memᴰ.head h) = (x, Memᴰ.head refl, h)
  Memᴰ-map y (x ∷ xs) (Memᴰ.tail m) = let (z, n, e) = Memᴰ-map y xs m in (z, Memᴰ.tail n, e)

  pub map-Memᴰ : (x : A) (xs : List A) → Memᴰ x xs → Memᴰ (f x) (map f xs)
  map-Memᴰ x [] m = elim m [ ]
  map-Memᴰ x (y ∷ ys) (Memᴰ.head h) = Memᴰ.head (ap f h)
  map-Memᴰ x (y ∷ ys) (Memᴰ.tail m) = Memᴰ.tail (map-Memᴰ x ys m)

  pub length-map : (xs : List A) → length (map f xs) ≡ length xs
  length-map [] = refl
  length-map (x ∷ xs) = ap (λ n. suc n) (length-map xs)

module _ {ℓ κ} {A : Type ℓ} where
  pub All_intro : (P : A → Type κ) (xs : List A) → ((x : A) → Memᴰ x xs → P x) → All P xs
  All_intro P [] h = tt
  All_intro P (x ∷ xs) h = (h x (Memᴰ.head refl), All_intro P xs (λ y m. h y (Memᴰ.tail m)))

  pub All_elim : (P : A → Type κ) (xs : List A) → All P xs → (x : A) → Memᴰ x xs → P x
  All_elim P [] h x m = elim m [ ]
  All_elim P (y ∷ ys) (p, h) x (Memᴰ.head e) = rw e p
  All_elim P (y ∷ ys) (p, h) x (Memᴰ.tail m) = All_elim P ys h x m
