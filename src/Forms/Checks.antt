-- ===== src/Forms/Checks.antt =====
-- What the forms of frontend/components/onboarding test of a field, and the sentence that they show.
use fintech_innova_hack.Prelude.{
  ℕ, ◌≤◌, ◌≡◌, refl, ◌↔◌, Bool, true, false, ◌&&◌, ◌||◌, All, Option, none, some, List, [], ◌∷◌,
  arith, ltb, if◌then◌else◌, ◌≢◌,
}
use fintech_innova_hack.Prelude.Text.{Text}
use fintech_innova_hack.Prelude.Int.{ℤ, pos, negsuc}

abbrev pub when : Bool → Text → Option Text
when test sentence = if test then some sentence else none

abbrev pub is_none {ℓ} : {A : Type ℓ} → Option A → Bool
is_none none = true
is_none (some a) = false

abbrev pub is_nil {ℓ} : {A : Type ℓ} → List A → Bool
is_nil [] = true
is_nil (x ∷ xs) = false

-- A sentence that replaces another, where its test holds.
abbrev pub or_when : Bool → Text → Option Text → Option Text
or_when test sentence other = if test then some sentence else other

-- `Object.keys(problems).length === 0`
abbrev pub no_problem : List (Text × Option Text) → Bool
no_problem [] = true
no_problem ((key, p) ∷ ps) = is_none p && no_problem ps

-- `!Number.isInteger(n) || n < 1 || n > most`
unfoldable pub out_of_hours : ℕ → Option ℤ → Bool
out_of_hours most none = true
out_of_hours most (some (negsuc n)) = true
out_of_hours most (some (pos n)) = ltb n 1 || ltb most n

-- No field has a problem exactly if each has none.
pub no_problem_iff :
    (ps : List (Text × Option Text)) → (no_problem ps ≡ true) ↔ All (λ p. p.1 ≡ none) ps
no_problem_iff [] = ((λ e. tt), (λ h. refl))
no_problem_iff ((key, none) ∷ ps) =
    ((λ e. (refl, (no_problem_iff ps).0 e)), (λ h. (no_problem_iff ps).1 h.1))
no_problem_iff ((key, some p) ∷ ps) = ((λ e. cc), (λ h. cc (h.0)))

-- There is no sentence exactly if the test fails.
pub when_iff : (test : Bool) (sentence : Text) → (when test sentence ≡ none) ↔ (test ≡ false)
when_iff true sentence = ((λ e. cc), (λ e. cc))
when_iff false sentence = ((λ e. refl), (λ e. refl))

pub or_when_iff :
    (test : Bool) (sentence : Text) (other : Option Text)
    → (or_when test sentence other ≡ none) ↔ ((test ≡ false) × (other ≡ none))
or_when_iff true sentence other = ((λ e. cc), (λ h. cc (h.0)))
or_when_iff false sentence other = ((λ e. (refl, e)), (λ h. h.1))

pub is_none_iff {ℓ} : {A : Type ℓ} (o : Option A) → (is_none o ≡ false) ↔ ((a : A) × (o ≡ some a))
is_none_iff none = ((λ e. cc), (λ (a, e). cc))
is_none_iff (some a) = ((λ e. (a, refl)), (λ h. refl))

pub is_nil_iff {ℓ} : {A : Type ℓ} (xs : List A) → (is_nil xs ≡ false) ↔ (xs ≢ [])
is_nil_iff [] = ((λ e. cc), (λ n. absurd (n refl)))
is_nil_iff (x ∷ xs) = ((λ e f. cc), (λ n. refl))

pub ltb-false_iff : (n m : ℕ) → (ltb n m ≡ false) ↔ (m ≤ n)
ltb-false_iff n m = ground arith

pub out_of_hours_iff :
    (most : ℕ) (o : Option ℤ)
    → (out_of_hours most o ≡ false) ↔ ((h : ℕ) × (o ≡ some (pos h)) × (1 ≤ h) × (h ≤ most))
unfolding out_of_hours
out_of_hours_iff most none = ((λ e. cc), (λ (h, e, a, b). cc))
out_of_hours_iff most (some (negsuc n)) = ((λ e. cc), (λ (h, e, a, b). cc))
out_of_hours_iff most (some (pos n)) = (
  λ e. (n, refl, ground arith, ground arith),
  λ (h, e, a, b). let same : n ≡ h = cc in ground arith,
)
