-- ===== src/Format/Labels/Examples.antt =====
-- Identifiers and codes as the screen shows them.
use fintech_innova_hack.Prelude.{◌≡◌, refl, some}
use fintech_innova_hack.Prelude.Text.{codes}
use fintech_innova_hack.Format.Labels.{humanise, pluralise}

humanised : humanise (some (codes "MANUAL_REVIEW--needed")) ≡ codes "Manual review needed"
unfolding humanise
humanised = refl

two_hashes : pluralise 2 (codes "hash") (some (codes "hashes")) ≡ codes "hashes"
unfolding pluralise
two_hashes = refl
