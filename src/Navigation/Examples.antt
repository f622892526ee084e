-- ===== src/Navigation/Examples.antt =====
-- Paths and their items.
use fintech_innova_hack.Prelude.{◌≡◌, refl, none, some}
use fintech_innova_hack.Prelude.Text.{codes}
use fintech_innova_hack.Navigation.{active_href}
use fintech_innova_hack.Navigation.Laws.{IsOwner, active_href-IsOwner}

below : active_href (codes "/vaults/vlt_123") ≡ some (codes "/vaults")
unfolding active_href
below = refl

beside : active_href (codes "/vaultsx") ≡ none
unfolding active_href
beside = refl

active_href-IsOwner_example :
    IsOwner (codes "/vaults/vlt_123") (active_href (codes "/vaults/vlt_123"))
active_href-IsOwner_example = active_href-IsOwner (codes "/vaults/vlt_123")
