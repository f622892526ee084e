-- ===== src/Pages/Start.antt =====
-- frontend/app/(product)/start/page.tsx and frontend/components/onboarding/first-run-banner.tsx: which
-- of the four steps are done and which are closed, and when the banner stands. A list that has not
-- arrived is `none`. The sentences with counts are not modelled.
use fintech_innova_hack.Prelude.{
  ◌≡◌, refl, inl, inr, Bool, true, false, not, ◌&&◌, ◌||◌, Option, none, some, List, [], ◌∷◌, any,
  keep, arith, if◌then◌else◌, Bool-cases, and-eq_true,
}
use fintech_innova_hack.Prelude.Text.{codes, text_eq}
use fintech_innova_hack.Types.Agents.{AgentSummary}
use fintech_innova_hack.Types.Credit.{CreditApplicationSummary}
use fintech_innova_hack.Types.Transactions.{RepaymentRow}
use fintech_innova_hack.Pages.Lists.{approved_family, has}

pub record Workspace : Type 0 where
  pub agents : Option (List AgentSummary)
  pub applications : Option (List CreditApplicationSummary)
  pub repayments : Option (List RepaymentRow)

-- `data ?? []`
or_empty : {A : Type 0} → Option (List A) → List A
or_empty none = []
or_empty (some xs) = xs

is_empty_list : {A : Type 0} → List A → Bool
is_empty_list [] = true
is_empty_list (x ∷ xs) = false

unfoldable pub passport_holders : Workspace → List AgentSummary
unfolding or_empty
passport_holders w = keep (λ a. a.has_passport) (or_empty w.agents)

unfoldable pub approved : Workspace → List CreditApplicationSummary
unfolding or_empty has
approved w = keep (λ a. has approved_family a.status) (or_empty w.applications)

pub record StepCard : Type 0 where
  pub done : Bool
  pub disabled : Bool

unfoldable pub register_card : Workspace → StepCard
unfolding passport_holders is_empty_list
register_card w = record { done = not (is_empty_list (passport_holders w)); disabled = false }

unfoldable pub apply_card : Workspace → StepCard
unfolding passport_holders is_empty_list or_empty
apply_card w = record {
  done = not (is_empty_list (or_empty w.applications));
  disabled = is_empty_list (passport_holders w);
}

unfoldable pub decide_card : Workspace → StepCard
unfolding approved is_empty_list or_empty text_eq
decide_card w = record {
  done =
      not (is_empty_list (approved w))
      || any (λ a. text_eq a.status (codes "REJECTED")) (or_empty w.applications);
  disabled = is_empty_list (or_empty w.applications);
}

unfoldable pub repay_card : Workspace → StepCard
unfolding approved is_empty_list or_empty
repay_card w = record {
  done = not (is_empty_list (or_empty w.repayments));
  disabled = is_empty_list (approved w);
}

-- What a card says beside its title.
pub data StepBadge : Type 0 where
  no_badge done_badge waiting_badge : StepBadge

unfoldable pub badge_of : (loading : Bool) → StepCard → StepBadge
badge_of loading c =
    if loading
    then no_badge
    else if c.done
    then done_badge
    else if c.disabled
    then waiting_badge
    else no_badge

both_empty : Option (List AgentSummary) → Option (List CreditApplicationSummary) → Bool
unfolding is_empty_list
both_empty (some agents) (some apps) = is_empty_list agents && is_empty_list apps
both_empty _ _ = false

-- The banner stands only where both lists arrived and are empty.
unfoldable pub is_first_run : Workspace → Bool
unfolding both_empty
is_first_run w = both_empty w.agents w.applications

approved_nil :
    (apps : List CreditApplicationSummary)
    → is_empty_list apps ≡ true
    → (is_empty_list (keep (λ a. has approved_family a.status) apps) ≡ true)
      × (any (λ a. text_eq a.status (codes "REJECTED")) apps ≡ false)
unfolding is_empty_list
approved_nil [] e = (refl, refl)
approved_nil (a ∷ apps) e = absurd (cc e)

holders_nil :
    (agents : List AgentSummary)
    → is_empty_list agents ≡ true
    → is_empty_list (keep (λ a. a.has_passport) agents) ≡ true
unfolding is_empty_list
holders_nil [] e = refl
holders_nil (a ∷ agents) e = absurd (cc e)

both_empty_sound :
    (agents : Option (List AgentSummary)) (apps : Option (List CreditApplicationSummary))
    → both_empty agents apps ≡ true
    → (is_empty_list (or_empty agents) ≡ true) × (is_empty_list (or_empty apps) ≡ true)
unfolding both_empty or_empty
both_empty_sound (some agents) (some apps) h =
    and-eq_true (is_empty_list agents) (is_empty_list apps) h
both_empty_sound (some agents) none h = absurd (cc h)
both_empty_sound none apps h = absurd (cc h)

-- The steps open in their order: the second is open exactly if the first is done, the third exactly
-- if the second is, and the fourth only if the second and the third are; the third is done only if
-- the second is.
pub cards_in_order :
    (w : Workspace)
    → ((apply_card w).disabled ≡ not (register_card w).done)
      × ((decide_card w).disabled ≡ not (apply_card w).done)
      × (((repay_card w).disabled || ((decide_card w).done && (apply_card w).done)) ≡ true)
      × ((not (decide_card w).done || (apply_card w).done) ≡ true)
unfolding register_card apply_card decide_card repay_card approved
cards_in_order w =
    let apps = or_empty w.applications in
    elim (Bool-cases (is_empty_list apps)) [
      | inl e ↦ let (a, r) = approved_nil apps e in ground arith
      | inr f ↦ rw f (ground arith)
    ]

-- Where the banner stands, only the first step is open, and none of the first three is done.
pub is_first_run-cards :
    (w : Workspace)
    → is_first_run w ≡ true
    → ((apply_card w).disabled ≡ true)
      × ((decide_card w).disabled ≡ true)
      × ((repay_card w).disabled ≡ true)
      × ((register_card w).done ≡ false)
      × ((apply_card w).done ≡ false)
      × ((decide_card w).done ≡ false)
unfolding register_card apply_card decide_card repay_card is_first_run approved passport_holders
is_first_run-cards w h =
    let (noone, nothing) = both_empty_sound w.agents w.applications h in
    let (a, r) = approved_nil (or_empty w.applications) nothing in
    let n = holders_nil (or_empty w.agents) noone in ground arith
