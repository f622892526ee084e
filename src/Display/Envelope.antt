-- ===== src/Display/Envelope.antt =====
-- frontend/components/system-intelligence/envelope.tsx and frontend/components/data/states.tsx: a figure
-- of the telemetry, or the reason why there is none. A figure's text, which Intl.NumberFormat prints, is
-- its unit and number here. A number is finite: no other is an integer.
use fintech_innova_hack.Prelude.{
  ◌≡◌, refl, ◌≢◌, ◌↔◌, ap, ◌∙◌, inl, inr, Bool-cases, Option-cases, ◌++◌, Bool, true, false, ◌&&◌,
  Option, none, some, if◌then◌else◌,
}
use fintech_innova_hack.Prelude.Text.{Text, codes}
use fintech_innova_hack.Prelude.Int.{ℤ}
use fintech_innova_hack.Format.Labels.{no_value}
use fintech_innova_hack.Types.Metrics.{
  MetricUnit, MetricStatus, ok, not_evaluated, insufficient_sample, not_connected, MetricEnvelope,
}

pub data AbsenceReason : Type 0 where
  unavailable_yet unevaluated unconnected insufficient not_applicable : AbsenceReason

pub record Copy : Type 0 where
  pub short : Text
  pub explain : Text

unfoldable pub absence_copy : AbsenceReason → Copy
absence_copy unavailable_yet = record {
  short = codes "Not available";
  explain = codes "No value has been recorded for this yet. This is not a zero.";
}
absence_copy unevaluated = record {
  short = codes "Not evaluated";
  explain =
      codes "The evaluation suite has not scored this metric. A score will appear after an "
      ++ codes "evaluation run completes.";
}
absence_copy unconnected = record {
  short = codes "Not connected";
  explain =
      codes "The upstream source for this figure is not configured in this deployment, so no value "
      ++ codes "can be reported.";
}
absence_copy insufficient = record {
  short = codes "Insufficient sample";
  explain =
      codes "There are too few cases to state a rate honestly. The figure will appear once the "
      ++ codes "sample is large enough.";
}
absence_copy not_applicable = record {
  short = codes "Not applicable";
  explain = codes "This measure does not apply in the current state.";
}

unfoldable pub absence_reason_of : MetricStatus → AbsenceReason
absence_reason_of not_evaluated = unevaluated
absence_reason_of not_connected = unconnected
absence_reason_of insufficient_sample = insufficient
absence_reason_of _ = unavailable_yet

status_ok : MetricStatus → Bool
status_ok ok = true
status_ok _ = false

is_some : Option ℤ → Bool
is_some none = false
is_some (some v) = true

unfoldable pub envelope_ok : Option MetricEnvelope → Bool
unfolding status_ok is_some
envelope_ok none = false
envelope_ok (some e) = status_ok e.status && is_some e.value

-- What is drawn: a figure, or an absence with the text and its explanation.
pub data Shown : Type 0 where
  figure : MetricUnit → ℤ → Shown
  absent : AbsenceReason → (text explanation : Text) → Shown

detail_or : Option Text → Text → Text
detail_or none other = other
detail_or (some t) other = t

reason_of : Option MetricEnvelope → AbsenceReason
unfolding absence_reason_of
reason_of none = unavailable_yet
reason_of (some e) = absence_reason_of e.status

-- Custom words are explained by the short label, the stock mark by the long one.
absent_for : AbsenceReason → Bool → Option Text → Option Text → Shown
unfolding detail_or absence_copy
absent_for reason label detail (some text) =
    absent reason text (detail_or detail (absence_copy reason).short)
absent_for reason label detail none =
    absent reason (if label then (absence_copy reason).short else no_value)
      (detail_or detail (absence_copy reason).explain)

figure_value : Option ℤ → MetricUnit → Shown → Shown
figure_value none u other = other
figure_value (some v) u other = figure u v

figure_of : Option MetricEnvelope → Shown → Shown
unfolding figure_value
figure_of none other = other
figure_of (some e) other = figure_value e.value e.unit other

unfoldable pub envelope_value :
    Option MetricEnvelope → (label : Bool) → (detail absent_text : Option Text) → Shown
unfolding envelope_ok figure_of absent_for reason_of
envelope_value e label detail absent_text =
    let absence = absent_for (reason_of e) label detail absent_text in
    if envelope_ok e then figure_of e absence else absence

unfoldable pub sample_size_of : Option MetricEnvelope → Option ℤ
sample_size_of none = none
sample_size_of (some e) = e.sample_size

absent_never :
    (r : AbsenceReason) (label : Bool) (detail text : Option Text) (u : MetricUnit) (v : ℤ)
    → absent_for r label detail text ≢ figure u v
unfolding absent_for
absent_never r label detail none u v e = cc e
absent_never r label detail (some t) u v e = cc e

status_ok_sound : (s : MetricStatus) → status_ok s ≡ true → s ≡ ok
unfolding status_ok
status_ok_sound ok e = refl
status_ok_sound s e = absurd (cc e)

-- A figure is drawn exactly if the envelope is there, its status is `ok` and it has a value; and it is
-- that value in the envelope's unit.
pub envelope_value-figure :
    (e : Option MetricEnvelope) (label : Bool) (detail absent_text : Option Text) (u : MetricUnit)
    (v : ℤ)
    → (envelope_value e label detail absent_text ≡ figure u v)
      ↔ ((m : MetricEnvelope) × (e ≡ some m) × (m.status ≡ ok) × (m.value ≡ some v) × (m.unit ≡ u))
unfolding envelope_value envelope_ok figure_of figure_value status_ok is_some
envelope_value-figure none label detail text u v =
    (λ h. absurd (absent_never _ label detail text u v h), λ (m, e, _, _, _). absurd (cc e))
envelope_value-figure (some m) label detail text u v = (
  λ h. elim (Bool-cases (status_ok m.status)) [
    | inr e ↦ absurd (absent_never _ label detail text u v (rw e at h))
    | inl e ↦ elim (Option-cases m.value) [
      | inl f ↦ absurd (absent_never _ label detail text u v (rw (e, f) at h))
      | inr (x, f) ↦
          let same : figure m.unit x ≡ figure u v = rw (e, f) at h in
          (m, refl, status_ok_sound m.status e, f ∙ ap (λ y. some y) (cc same), cc same)
    ]
  ],
  λ (n, e, f, g, k).
      let same : m ≡ n = cc e in
      let fine : m.status ≡ ok = ap (λ (y : MetricEnvelope). y.status) same ∙ f in
      let there : m.value ≡ some v = ap (λ (y : MetricEnvelope). y.value) same ∙ g in
      rw (fine, there) (ap (λ w. figure w v) (ap (λ (y : MetricEnvelope). y.unit) same ∙ k)),
)
