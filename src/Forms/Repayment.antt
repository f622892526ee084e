-- ===== src/Forms/Repayment.antt =====
-- frontend/components/onboarding/repayment-controls.tsx: recording a vault's revenue.
use fintech_innova_hack.Prelude.{
  ℕ, ◌≡◌, refl, Bool, Option, none, some, [], ◌∷◌, ◌++◌, any, ap, sym, ◌∙◌, Option-cases, inl, inr,
  ◌↔◌,
}
use fintech_innova_hack.Prelude.Text.{Text, codes, text_eq}
use fintech_innova_hack.Format.Decimal.{
  decimal, span_digits, span-decimal, digits_value, digits_value-decimal,
}
use fintech_innova_hack.Format.Rupees.{rupee_input_to_minor}

unfoldable pub settled : Text → Bool
unfolding text_eq
settled status = any (text_eq status) (codes "REPAID" ∷ codes "CLOSED" ∷ codes "DEFAULTED" ∷ [])

pub record Revenue : Type 0 where
  pub amount_minor : ℕ
  pub external_event_id : Text
  pub task_completed : Bool

unfoldable pub external_event_id : Text → ℕ → ℕ → Text
unfolding decimal
external_event_id vault count amount =
    codes "web-" ++ (vault ++ b'-' ∷ (decimal count ++ b'-' ∷ decimal amount))

revenue_of : Text → ℕ → Bool → Option ℕ → Option Revenue
revenue_of vault count completed none = none
revenue_of vault count completed (some amount) = some (record {
  amount_minor = amount;
  external_event_id = external_event_id vault count amount;
  task_completed = completed;
})

-- What `submit` sends: the vault, its revenue events so far, the field's text, and the button.
unfoldable pub submit : Text → ℕ → Text → Bool → Option Revenue
unfolding revenue_of external_event_id rupee_input_to_minor
submit vault count text completed = revenue_of vault count completed (rupee_input_to_minor text)

append_cancel : (xs : Text) {ys zs : Text} → xs ++ ys ≡ xs ++ zs → ys ≡ zs
append_cancel [] e = e
append_cancel (x ∷ xs) e = append_cancel xs (cc)

decimal_injective : (n m : ℕ) → decimal n ≡ decimal m → n ≡ m
decimal_injective n m e =
    sym (digits_value-decimal n) ∙ ap (digits_value 0) e ∙ digits_value-decimal m

both_injective :
    (c a c' a' : ℕ)
    → decimal c ++ b'-' ∷ decimal a ≡ decimal c' ++ b'-' ∷ decimal a'
    → (c ≡ c') × (a ≡ a')
both_injective c a c' a' e =
    let spans : (decimal c, b'-' ∷ decimal a) ≡ (decimal c', b'-' ∷ decimal a') =
      sym (span-decimal c (b'-' ∷ decimal a) refl)
      ∙ ap span_digits e
      ∙ span-decimal c' (b'-' ∷ decimal a') refl in
    (
      decimal_injective c c' (ap (λ (p : Text × Text). p.0) spans),
      decimal_injective a a' (append_cancel (b'-' ∷ []) (ap (λ (p : Text × Text). p.1) spans)),
    )

submit_sent :
    (vault : Text) (count : ℕ) (text : Text) (completed : Bool) (r : Revenue)
    → submit vault count text completed ≡ some r
    → (rupee_input_to_minor text ≡ some r.amount_minor)
      × (r.external_event_id ≡ external_event_id vault count r.amount_minor)
unfolding submit revenue_of
submit_sent vault count text completed r e = elim (Option-cases (rupee_input_to_minor text)) [
  | inl f ↦ cc (rw f at e)
  | inr (n, f) ↦
      let sent : r ≡ record {
        amount_minor = n;
        external_event_id = external_event_id vault count n;
        task_completed = completed;
      } =
        cc (rw f at e) in
      rw (f, sent) (refl, refl)
]

-- Two payments recorded for a vault have one event identifier exactly if they are of the same amount
-- and as many revenue events of the vault were known; which button was pressed has no part in it.
pub submit-external_event_id :
    (vault : Text) (c c' : ℕ) (text text' : Text) (completed completed' : Bool) (r r' : Revenue)
    → submit vault c text completed ≡ some r
    → submit vault c' text' completed' ≡ some r'
    → (r.external_event_id ≡ r'.external_event_id) ↔ ((c ≡ c') × (r.amount_minor ≡ r'.amount_minor))
unfolding external_event_id
submit-external_event_id vault c c' text text' b b' r r' e e' =
    let (_, i) = submit_sent vault c text b r e in
    let (_, i') = submit_sent vault c' text' b' r' e' in
    (
      λ same. both_injective c r.amount_minor c' r'.amount_minor (
          append_cancel (b'-' ∷ [])
            (append_cancel vault (append_cancel (codes "web-") (sym i ∙ same ∙ i')))),
      λ (p, q). i ∙ rw (p, q) (sym i'),
    )
