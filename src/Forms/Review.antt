-- ===== src/Forms/Review.antt =====
-- frontend/components/underwriting/review-controls.tsx: the human decision on an application.
use fintech_innova_hack.Prelude.{
  ℕ, ◌<◌, ◌≡◌, refl, ◌≢◌, inl, inr, Bool, true, false, Option, none, some, [], ◌∷◌, ◌==◌, ==_iff,
  Bool-cases, Option-cases, ◌↔◌, ◌⊎◌, sym, ◌∙◌, if◌then◌else◌,
}
use fintech_innova_hack.Prelude.Text.{Text, trim}
use fintech_innova_hack.Prelude.Int.{ℤ, pos, negsuc}
use fintech_innova_hack.Format.Rupees.{rupee_input_value, rupee_input_to_minor}
use fintech_innova_hack.Format.Rupees.Laws.{rupee_input_to_minor-value}

pub data Intent : Type 0 where
  to_approve to_reject : Intent

pub data Action : Type 0 where
  approve reduce reject : Action

-- The body that is sent. `amount_minor` is absent, or a number, or the null of a text that is no
-- amount.
pub data Amount : Type 0 where
  absent : Amount
  minor : ℕ → Amount
  null_amount : Amount

pub record Review : Type 0 where
  pub action : Action
  pub amount_minor : Amount
  pub notes : Option Text

-- The first text of the amount's field.
unfoldable pub default_rupees : ℤ → Option ℤ → Text
unfolding rupee_input_value
default_rupees requested none = rupee_input_value (some requested)
default_rupees requested (some limit) = rupee_input_value (some limit)

notes_part : Text → Option Text
notes_part [] = none
notes_part (c ∷ s) = some (c ∷ s)

same_amount : Option ℕ → ℤ → Bool
same_amount none limit = false
same_amount (some n) (pos m) = n == m
same_amount (some n) (negsuc m) = false

-- `engineLimitMinor === null || amountMinor === engineLimitMinor`
is_unchanged : Option ℕ → Option ℤ → Bool
unfolding same_amount
is_unchanged amount none = true
is_unchanged amount (some limit) = same_amount amount limit

sent_amount : Option ℕ → Amount
sent_amount none = null_amount
sent_amount (some n) = minor n

-- What `decide` sends, for the texts of the two fields.
unfoldable pub decide : Option ℤ → Text → Text → Intent → Review
unfolding notes_part is_unchanged sent_amount rupee_input_to_minor trim
decide limit amount notes to_reject = record {
  action = reject;
  amount_minor = absent;
  notes = notes_part (trim notes);
}
decide limit amount notes to_approve =
    if is_unchanged (rupee_input_to_minor amount) limit
    then record { action = approve; amount_minor = absent; notes = notes_part (trim notes) }
    else record {
      action = reduce;
      amount_minor = sent_amount (rupee_input_to_minor amount);
      notes = notes_part (trim notes);
    }

-- If the engine set a limit of between one paisa and ten million million rupees, approving with the
-- amount that the form began with sends APPROVE, and no amount.
pub decide-default_rupees :
    (requested : ℤ) (limit : ℕ) (notes : Text)
    → 0 < limit
    → limit < 1000000000000000
    → ((decide
          (some (pos limit))
          (default_rupees requested (some (pos limit)))
          notes
          to_approve).action
        ≡ approve)
      × ((decide
            (some (pos limit))
            (default_rupees requested (some (pos limit)))
            notes
            to_approve).amount_minor
          ≡ absent)
unfolding decide default_rupees is_unchanged same_amount
decide-default_rupees requested limit notes low high =
    let same : (limit == limit) ≡ true = (==_iff limit limit).1 refl in
    (
      rw (rupee_input_to_minor-value limit low high, same) refl,
      rw (rupee_input_to_minor-value limit low high, same) refl,
    )

-- If the engine set a limit, approving with another amount sends REDUCE and that amount, whether it is
-- below the limit or above.
pub decide-other :
    (limit n : ℕ) (amount notes : Text)
    → rupee_input_to_minor amount ≡ some n
    → n ≢ limit
    → ((decide (some (pos limit)) amount notes to_approve).action ≡ reduce)
      × ((decide (some (pos limit)) amount notes to_approve).amount_minor ≡ minor n)
unfolding decide is_unchanged same_amount sent_amount
decide-other limit n amount notes e other = elim (Bool-cases (n == limit)) [
  | inl b ↦ absurd (other ((==_iff n limit).0 b))
  | inr b ↦ (rw (e, b) refl, rw (e, b) refl)
]

-- Approving sends APPROVE exactly if the engine set no limit, whatever amount was typed, or the amount
-- typed is the limit.
pub decide-approve_iff :
    (limit : Option ℤ) (amount notes : Text)
    → ((decide limit amount notes to_approve).action ≡ approve) ↔ (
        (limit ≡ none)
        ⊎ ((n : ℕ) × (limit ≡ some (pos n)) × (rupee_input_to_minor amount ≡ some n)))
unfolding decide is_unchanged same_amount
decide-approve_iff none amount notes = (λ e. inl refl, λ h. refl)
decide-approve_iff (some (negsuc m)) amount notes =
    elim (Option-cases (rupee_input_to_minor amount)) [
      | inl e ↦ rw e ((λ f. cc), (λ h. elim h [ inl f ↦ cc | inr (n, f, g) ↦ cc ]))
      | inr (k, e) ↦ rw e ((λ f. cc), (λ h. elim h [ inl f ↦ cc | inr (n, f, g) ↦ cc ]))
    ]
decide-approve_iff (some (pos m)) amount notes = elim (Option-cases (rupee_input_to_minor amount)) [
  | inl e ↦ rw e ((λ f. cc), (λ h. elim h [ inl f ↦ cc | inr (n, f, g) ↦ cc ]))
  | inr (k, e) ↦ elim (Bool-cases (k == m)) [
    | inl b ↦
        let same : k ≡ m = (==_iff k m).0 b in rw (e, b) ((λ f. inr (m, refl, (cc))), (λ h. refl))
    | inr b ↦
        let differ : (k ≡ m) → false ≡ true = λ q. sym b ∙ (==_iff k m).1 q in
        rw (e, b) ((λ f. cc), (λ h. elim h [ inl f ↦ cc | inr (n, f, g) ↦ cc (differ (cc)) ]))
  ]
]
