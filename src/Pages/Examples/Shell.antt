-- ===== src/Pages/Examples/Shell.antt =====
-- The narration, the tabs and the crumbs.
use fintech_innova_hack.Prelude.{◌≡◌, refl, true, none, some, [], ◌∷◌, ◌++◌, arith}
use fintech_innova_hack.Prelude.Text.{Text, codes}
use fintech_innova_hack.Navigation.{active_href}
use fintech_innova_hack.Format.Labels.{short_id}
use fintech_innova_hack.Pages.Narration.{
  silent, listen, receive_blob, leave, here, after, pressed, came, left, Narrated, IsLate, IsTidy,
  Narrated-IsTidy, leave-late,
}
use fintech_innova_hack.Pages.Tabs.{arrow_left, next_tab}
use fintech_innova_hack.Pages.Crumbs.{crumbs, crumbs-record}

abbrev heard : Narrated silent (leave (receive_blob (listen silent)))
unfolding listen receive_blob
heard =
    after (after (after here (pressed silent refl refl)) (came (listen silent) refl))
      (left (receive_blob (listen silent)) refl)

Narrated-IsTidy_example : IsTidy (IsLate heard) (leave (receive_blob (listen silent)))
Narrated-IsTidy_example = Narrated-IsTidy (leave (receive_blob (listen silent))) heard

leave-late_example :
    ((receive_blob (leave (listen silent))).playing ≡ true)
    × ((receive_blob (leave (listen silent))).live ≡ 0 ∷ [])
unfolding listen
leave-late_example =
    leave-late (listen silent) (receive_blob (leave (listen silent)))
      (after here (pressed silent refl refl)) refl refl here

-- The left arrow on the first of three tabs moves to the last; without a focus it moves to the second.
wraps : (next_tab arrow_left (some 0) 3 ≡ 2) × (next_tab arrow_left none 3 ≡ 1)
unfolding next_tab
wraps = (refl, refl)

vault_path : active_href (codes "/vaults" ++ b'/' ∷ codes "vlt_1") ≡ some (codes "/vaults")
unfolding active_href
vault_path = refl

crumbs-record_example :
    (label : Text) × (crumbs (λ t. some t) (codes "/vaults" ++ b'/' ∷ codes "vlt_1")
      ≡ some (
          record { label = label; href = some (codes "/vaults") }
          ∷ record { label = short_id (some (codes "vlt_1")) 12 4; href = none }
          ∷ []))
crumbs-record_example =
    crumbs-record (λ t. some t) (codes "/vaults") (codes "vlt_1") (codes "vlt_1") vault_path
      (λ e. cc e) (ground arith) refl
