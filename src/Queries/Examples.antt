-- ===== src/Queries/Examples.antt =====
-- A library that matches by prefix, and what a payment leaves in the cache.
use fintech_innova_hack.Prelude.{◌≡◌, refl, true, false, []}
use fintech_innova_hack.Prelude.Text.{codes}
use fintech_innova_hack.Queries.{exposure, retries}
use fintech_innova_hack.Queries.Writes.{receive_revenue, freeze_vault, invalidates}
use fintech_innova_hack.Queries.Invalidated.{
  begins, begins_iff, area_of, refreshes, invalidates-refreshes,
}

invalidates-refreshes_example :
    invalidates begins (receive_revenue (codes "vlt_1")) (exposure 14)
    ≡ refreshes (receive_revenue (codes "vlt_1")) (area_of (exposure 14))
invalidates-refreshes_example =
    invalidates-refreshes begins begins_iff (receive_revenue (codes "vlt_1")) (exposure 14)

-- The chart of exposure is read again after a freeze, and not after a payment.
frozen : invalidates begins (freeze_vault (codes "vlt_1")) (exposure 14) ≡ true
unfolding invalidates begins
frozen = refl

left_as_it_was : invalidates begins (receive_revenue (codes "vlt_1")) (exposure 14) ≡ false
unfolding invalidates begins
left_as_it_was = refl

-- The third attempt.
third : retries 1 (record { status = 503; detail = []; code = codes "X" }) ≡ true
unfolding retries
third = refl
