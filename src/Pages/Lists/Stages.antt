-- ===== src/Pages/Lists/Stages.antt =====
-- The stages that the page of applications offers, against the stage that an application is at.
use mathlib.Core.List.{Memᴰ}
use fintech_innova_hack.Prelude.{
  ◌≡◌, refl, sym, ap, ◌∙◌, ◌↔◌, ◌⊎◌, inl, inr, false, not, ◌||◌, some, List, [], ◌∷◌, All, arith,
  if◌then◌else◌,
}
use fintech_innova_hack.Prelude.Members.{All_elim}
use fintech_innova_hack.Prelude.Text.{Text, codes, text_eq}
use fintech_innova_hack.Prelude.Text.Laws.{text_eq_iff, unless}
use fintech_innova_hack.Types.Credit.{CreditApplicationSummary}
use fintech_innova_hack.Pages.Search.{needle_of, Finds, or-eq_true, or_left, or_right}
use fintech_innova_hack.Pages.Lists.{stage_filters, is_off_stage, application_rows}
use fintech_innova_hack.Pages.Lists.Rows.{application_rows-Finds}

-- The one stage of a status: the three that end the pipeline by name, and else in flight.
unfoldable pub stage_of : Text → Text
unfolding text_eq
stage_of status =
    if text_eq status (codes "HUMAN_REVIEW_REQUIRED")
    then codes "HUMAN_REVIEW_REQUIRED"
    else if text_eq status (codes "REJECTED")
    then codes "REJECTED"
    else if text_eq status (codes "APPROVED")
    then codes "APPROVED"
    else if text_eq status (codes "VAULT_CREATED")
    then codes "APPROVED"
    else if text_eq status (codes "DISBURSEMENT_ENABLED")
    then codes "APPROVED"
    else codes "IN_FLIGHT"

abbrev Agree : Text → Text → Type 0
Agree status stage =
    is_off_stage stage status ≡ not (text_eq stage [] || text_eq stage (stage_of status))

agree : (status : Text) → All (Agree status) stage_filters
unfolding is_off_stage stage_of text_eq
agree s =
    let P = λ (t : Text). All (Agree t) stage_filters in
    unless P s (codes "HUMAN_REVIEW_REQUIRED") (refl, (refl, (refl, (refl, (refl, tt)))))
      λ h.
        unless P s (codes "REJECTED") (refl, (refl, (refl, (refl, (refl, tt)))))
          λ r.
            unless P s (codes "APPROVED") (refl, (refl, (refl, (refl, (refl, tt)))))
              λ a.
                unless P s (codes "VAULT_CREATED") (refl, (refl, (refl, (refl, (refl, tt)))))
                  λ v.
                    unless P s (codes "DISBURSEMENT_ENABLED")
                      (refl, (refl, (refl, (refl, (refl, tt)))))
                      λ d. (
                        refl,
                        (
                          rw (h, r, a, v, d) refl,
                          (
                            rw (h, r, a, v, d) refl,
                            (rw (h, r, a, v, d) refl, (rw (h, r, a, v, d) refl, tt)),
                          ),
                        ),
                      )

off_iff :
    (stage status : Text)
    → Memᴰ stage stage_filters
    → (is_off_stage stage status ≡ false) ↔ ((stage ≡ []) ⊎ (stage ≡ stage_of status))
off_iff stage status m =
    let e = All_elim (Agree status) stage_filters (agree status) stage m in
    (
      λ off. elim (or-eq_true (text_eq stage []) _ (let back = sym e ∙ off in ground arith)) [
        | inl f ↦ inl ((text_eq_iff stage []).0 f)
        | inr f ↦ inr ((text_eq_iff stage (stage_of status)).0 f)
      ],
      λ c.
          e
          ∙ ap not (elim c [
            | inl f ↦ or_left (text_eq stage []) _ ((text_eq_iff stage []).1 f)
            | inr f ↦ or_right (text_eq stage []) _ ((text_eq_iff stage (stage_of status)).1 f)
          ]),
    )

-- For a stage that the page offers, it lists an application exactly if it arrived, the stage is the
-- one for all or the one stage that the application is at, and what was typed is empty or stands in a
-- lowered field. So each application is listed under one of the four stages and no other.
pub application_rows-stage_of :
    (lower : Text → Text) (apps : List CreditApplicationSummary) (stage search : Text)
    (a : CreditApplicationSummary)
    → Memᴰ stage stage_filters
    → Memᴰ a (application_rows lower (some apps) stage search) ↔ (
        Memᴰ a apps
        × ((stage ≡ []) ⊎ (stage ≡ stage_of a.status))
        × Finds lower
            (needle_of lower search)
            (a.application_id ∷ a.agent_name ∷ a.task_title ∷ []))
application_rows-stage_of lower apps stage search a m =
    let (to, from) = application_rows-Finds lower apps stage search a in
    let (open_, close) = off_iff stage a.status m in
    (
      λ l. let (here, on, f) = to l in (here, open_ on, f),
      λ (here, on, f). from (here, close on, f),
    )
