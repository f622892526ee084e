-- ===== src/Display/Examples.antt =====
-- An envelope with a figure, and the bars of a repayment.
use fintech_innova_hack.Prelude.{◌≡◌, refl, ◌↔◌, true, false, none, some, List, [], ◌∷◌, map}
use fintech_innova_hack.Prelude.Text.{codes}
use fintech_innova_hack.Prelude.Int.{pos, negsuc}
use fintech_innova_hack.Types.Metrics.{MetricEnvelope, ms, ok, insufficient_sample}
use fintech_innova_hack.Types.Vaults.{WaterfallAllocation}
use fintech_innova_hack.Types.Underwriting.{DeterministicEngineCaps}
use fintech_innova_hack.Display.Caps.{cap_rows}
use fintech_innova_hack.Display.Envelope.{
  envelope_value, figure, absent, insufficient, envelope_value-figure,
}
use fintech_innova_hack.Display.Waterfall.{bars}

abbrev latency : MetricEnvelope
latency = record { value = some (pos 420); unit = ms; sample_size = some (pos 12); status = ok }

envelope_value-figure_example :
    (envelope_value (some latency) false none none ≡ figure ms (pos 420)) ↔ (
      (m : MetricEnvelope) × (some latency ≡ some m)
      × (m.status ≡ ok)
      × (m.value ≡ some (pos 420))
      × (m.unit ≡ ms))
envelope_value-figure_example = envelope_value-figure (some latency) false none none ms (pos 420)

-- A value that comes with another status is not shown.
withheld :
    envelope_value
      (some (record latency { status = insufficient_sample }))
      false
      none
      (some (codes "Too few"))
    ≡ absent insufficient (codes "Too few") (codes "Insufficient sample")
unfolding envelope_value
withheld = refl

abbrev allocations : List WaterfallAllocation
allocations =
    record { step = codes "REPAY_PRINCIPAL"; amount_minor = pos 300 }
    ∷ record { step = codes "PAY_FEE"; amount_minor = pos 0 }
    ∷ record { step = codes "DEFAULT_LOSS"; amount_minor = negsuc 99 }
    ∷ []

three_quarters : map (λ b. b.share) (bars allocations) ≡ (30000, 400) ∷ (10000, 400) ∷ []
unfolding bars
three_quarters = refl

abbrev caps : DeterministicEngineCaps
caps = record {
  requested_minor = pos 250000;
  available_exposure_minor = pos 500000;
  revenue_advance_cap_minor = pos 240000;
  task_cost_cap_minor = pos 240000;
  policy_cap_minor = pos 1000000;
}

-- Two caps are equal and both are marked; none is where less was approved.
both_marked :
    map (λ r. r.is_binding) (cap_rows caps (pos 240000)) ≡ false ∷ false ∷ true ∷ true ∷ false ∷ []
unfolding cap_rows
both_marked = refl

none_marked :
    map (λ r. r.is_binding) (cap_rows caps (pos 200000))
    ≡ false ∷ false ∷ false ∷ false ∷ false ∷ []
unfolding cap_rows
none_marked = refl
