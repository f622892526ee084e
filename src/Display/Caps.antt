-- ===== src/Display/Caps.antt =====
-- frontend/components/underwriting/decision-panels.tsx: the rows of the five caps, against the cap that
-- the summary of Forms/Underwriting names.
use mathlib.Core.List.{Memᴰ}
use fintech_innova_hack.Prelude.{
  ◌≡◌, refl, sym, ap, ◌∙◌, Bool, true, false, ◌&&◌, some, List, [], ◌∷◌, map, ◌==◌, ==_iff,
  if◌then◌else◌, and-eq_true,
}
use fintech_innova_hack.Prelude.Members.{Memᴰ-map}
use fintech_innova_hack.Prelude.Text.{Text, codes}
use fintech_innova_hack.Prelude.Int.{ℤ, pos, negsuc}
use fintech_innova_hack.Types.Underwriting.{DeterministicEngine, DeterministicEngineCaps}
use fintech_innova_hack.Forms.Underwriting.{
  less, Cap, other_caps, requested_cap, lowest_of, binding,
}

unfoldable pub same_amount_as : ℤ → ℤ → Bool
same_amount_as (pos a) (pos b) = a == b
same_amount_as (negsuc a) (negsuc b) = a == b
same_amount_as _ _ = false

-- `Math.min`, from the least so far
unfoldable pub least_of : ℤ → List ℤ → ℤ
unfolding less
least_of least [] = least
least_of least (x ∷ xs) = least_of (if less x least then x else least) xs

pub record Row : Type 0 where
  pub label : Text
  pub value : ℤ
  pub is_binding : Bool

unfoldable pub entries : DeterministicEngineCaps → List (Text × ℤ)
entries c =
    (codes "Requested", c.requested_minor)
    ∷ (codes "Available exposure", c.available_exposure_minor)
    ∷ (codes "Revenue advance cap", c.revenue_advance_cap_minor)
    ∷ (codes "Task cost cap", c.task_cost_cap_minor)
    ∷ (codes "Policy cap", c.policy_cap_minor)
    ∷ []

unfoldable pub binding_amount : DeterministicEngineCaps → ℤ
unfolding least_of
binding_amount c = least_of c.requested_minor (
    c.available_exposure_minor ∷ c.revenue_advance_cap_minor ∷ c.task_cost_cap_minor
    ∷ c.policy_cap_minor ∷ [])

row_of : ℤ → ℤ → Text × ℤ → Row
unfolding same_amount_as
row_of least approved (label, value) = record {
  label = label;
  value = value;
  is_binding = same_amount_as value least && same_amount_as value approved;
}

unfoldable pub cap_rows : DeterministicEngineCaps → (approved : ℤ) → List Row
unfolding row_of entries binding_amount
cap_rows c approved = map (row_of (binding_amount c) approved) (entries c)

same_amount_as_sound : (x y : ℤ) → same_amount_as x y ≡ true → x ≡ y
unfolding same_amount_as
same_amount_as_sound (pos a) (pos b) e = ap pos ((==_iff a b).0 e)
same_amount_as_sound (negsuc a) (negsuc b) e = ap negsuc ((==_iff a b).0 e)
same_amount_as_sound (pos a) (negsuc b) e = absurd (cc e)
same_amount_as_sound (negsuc a) (pos b) e = absurd (cc e)

chosen_amount :
    (test : Bool) (e l : Cap)
    → (if test then e else l).amount ≡ (if test then e.amount else l.amount)
chosen_amount true e l = refl
chosen_amount false e l = refl

least_of-lowest_of :
    (l : Cap) (es : List Cap) → (lowest_of l es).amount ≡ least_of l.amount (map (λ c. c.amount) es)
unfolding lowest_of least_of
least_of-lowest_of l [] = refl
least_of-lowest_of l (e ∷ es) =
    least_of-lowest_of (if less e.amount l.amount then e else l) es
    ∙ ap (λ x. least_of x (map (λ c. c.amount) es)) (chosen_amount (less e.amount l.amount) e l)

binding_amount-binding :
    (engine : DeterministicEngine) (c : Cap)
    → binding (some engine) ≡ some c
    → binding_amount engine.caps ≡ c.amount
unfolding binding binding_amount other_caps
binding_amount-binding engine c e =
    let same : lowest_of (requested_cap engine.caps) (other_caps engine.caps) ≡ c = cc e in
    sym (least_of-lowest_of (requested_cap engine.caps) (other_caps engine.caps))
    ∙ ap (λ (d : Cap). d.amount) same

-- A row that is marked as binding shows the amount that was approved, and it is the amount of the cap
-- that the summary names.
pub cap_rows-binding :
    (engine : DeterministicEngine) (approved : ℤ) (c : Cap) (row : Row)
    → binding (some engine) ≡ some c
    → Memᴰ row (cap_rows engine.caps approved)
    → row.is_binding ≡ true
    → (row.value ≡ approved) × (row.value ≡ c.amount)
unfolding cap_rows row_of
cap_rows-binding engine approved c row e m marked =
    let ((label, value), here, same) =
      Memᴰ-map (row_of (binding_amount engine.caps) approved) row (entries engine.caps) m in
    let (least, agreed) =
      and-eq_true (same_amount_as value (binding_amount engine.caps))
        (same_amount_as value approved) (sym (ap (λ (r : Row). r.is_binding) same) ∙ marked) in
    let shown : row.value ≡ value = ap (λ (r : Row). r.value) same in
    (
      shown ∙ same_amount_as_sound value approved agreed,
      shown
          ∙ same_amount_as_sound value (binding_amount engine.caps) least
          ∙ binding_amount-binding engine c e,
    )
