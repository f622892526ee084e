-- ===== src/Pages/Health.antt =====
-- frontend/app/(product)/system-intelligence/page.tsx: `rollupHealth`, the one line that stands for the
-- probes, apart from its icon and colour.
use fintech_innova_hack.Prelude.{
  ℕ, suc, ◌≡◌, refl, ◌≢◌, ◌↔◌, Bool, true, false, List, [], ◌∷◌, any, keep, All, length, arith, ltb,
  ◌≤◌, if◌then◌else◌, inl, inr, ◌∙◌, ap, sym, ◌<◌, ◌⊎◌, ◌||◌,
}
use fintech_innova_hack.Prelude.Text.{Text, codes}
use fintech_innova_hack.Types.Intelligence.{
  ServiceHealthStatus, healthy, degraded, down, idle, not_connected, ServiceHealthEntry,
}

is_healthy : ServiceHealthStatus → Bool
is_healthy healthy = true
is_healthy _ = false

is_down : ServiceHealthStatus → Bool
is_down down = true
is_down _ = false

is_degraded : ServiceHealthStatus → Bool
is_degraded degraded = true
is_degraded _ = false

-- `"not_connected"` or `"idle"`
is_unexercised : ServiceHealthStatus → Bool
is_unexercised not_connected = true
is_unexercised idle = true
is_unexercised _ = false

pub record Rollup : Type 0 where
  pub label : Text
  pub healthy_count : ℕ

healthy_among : List ServiceHealthEntry → ℕ
unfolding is_healthy
healthy_among entries = length (keep (λ e. is_healthy e.status) entries)

-- The returns for a list that is not empty, in the order of the code.
label_among : List ServiceHealthEntry → Text
unfolding is_down is_degraded is_unexercised
label_among entries =
    if any (λ e. is_down e.status) entries
    then codes "Component down"
    else if any (λ e. is_degraded e.status) entries
    then codes "Degraded"
    else if any (λ e. is_unexercised e.status) entries
    then codes "Partial telemetry"
    else codes "All healthy"

unfoldable pub rollup_health : List ServiceHealthEntry → Rollup
unfolding healthy_among label_among
rollup_health [] = record { label = codes "No probes"; healthy_count = 0 }
rollup_health (e ∷ rest) = record {
  label = label_among (e ∷ rest);
  healthy_count = healthy_among (e ∷ rest);
}

-- How bad a status is.
unfoldable pub rank : ServiceHealthStatus → ℕ
rank healthy = 0
rank idle = 1
rank not_connected = 1
rank degraded = 2
rank down = 3

unfoldable pub worst : List ServiceHealthEntry → ℕ
unfolding rank
worst [] = 0
worst (e ∷ rest) = let w = worst rest in if ltb w (rank e.status) then rank e.status else w

-- What the worst of the statuses is called.
abbrev pub label_of : ℕ → Text
label_of w =
    if ltb 2 w
    then codes "Component down"
    else if ltb 1 w
    then codes "Degraded"
    else if ltb 0 w
    then codes "Partial telemetry"
    else codes "All healthy"

abbrev graded : Bool → Bool → Bool → ℕ
graded d g u = if d then 3 else if g then 2 else if u then 1 else 0

worst_step :
    (s : ServiceHealthStatus) (d g u : Bool)
    → (if ltb (graded d g u) (rank s) then rank s else graded d g u)
      ≡ graded (is_down s || d) (is_degraded s || g) (is_unexercised s || u)
unfolding rank is_down is_degraded is_unexercised
worst_step healthy d g u = ground arith
worst_step degraded d g u = ground arith
worst_step down d g u = ground arith
worst_step idle d g u = ground arith
worst_step not_connected d g u = ground arith

worst-graded :
    (entries : List ServiceHealthEntry)
    → worst entries
      ≡ graded
          (any (λ e. is_down e.status) entries)
          (any (λ e. is_degraded e.status) entries)
          (any (λ e. is_unexercised e.status) entries)
unfolding worst
worst-graded [] = refl
worst-graded (e ∷ rest) = rw (worst-graded rest) (
    worst_step e.status (any (λ x. is_down x.status) rest) (any (λ x. is_degraded x.status) rest)
      (any (λ x. is_unexercised x.status) rest))

label_graded :
    (d g u : Bool)
    → (if d
        then codes "Component down"
        else if g
        then codes "Degraded"
        else if u
        then codes "Partial telemetry"
        else codes "All healthy")
      ≡ label_of (graded d g u)
label_graded true g u = refl
label_graded false true u = refl
label_graded false false true = refl
label_graded false false false = refl

abbrev AllHealthy : List ServiceHealthEntry → Type 0
AllHealthy = All (λ e. e.status ≡ healthy)

healthy_cases :
    (s : ServiceHealthStatus)
    → ((is_healthy s ≡ true) × (s ≡ healthy) × (rank s ≡ 0))
      ⊎ ((is_healthy s ≡ false) × (s ≢ healthy) × (0 < rank s))
unfolding is_healthy rank
healthy_cases healthy = inl (refl, refl, refl)
healthy_cases degraded = inr (refl, λ e. cc e, omega arith)
healthy_cases down = inr (refl, λ e. cc e, omega arith)
healthy_cases idle = inr (refl, λ e. cc e, omega arith)
healthy_cases not_connected = inr (refl, λ e. cc e, omega arith)

healthy_among-le : (entries : List ServiceHealthEntry) → healthy_among entries ≤ length entries
unfolding healthy_among
healthy_among-le [] = omega arith
healthy_among-le (e ∷ rest) = ground (arith, healthy_among-le rest)

count_iff :
    (entries : List ServiceHealthEntry)
    → (healthy_among entries ≡ length entries) ↔ AllHealthy entries
unfolding healthy_among
count_iff [] = (λ h. tt, λ h. refl)
count_iff (e ∷ rest) =
    let (to, from) = count_iff rest in
    let le = healthy_among-le rest in
    elim (healthy_cases e.status) [
      | inl (t, s, z) ↦
          rw (t, keep) (λ h. (s, to (omega arith)), λ (q, h). ap (λ n. suc n) (from h))
      | inr (f, n, z) ↦ rw (f, keep) (λ h. absurd (omega arith), λ (q, h). absurd (n q))
    ]

worst_iff : (entries : List ServiceHealthEntry) → (worst entries ≡ 0) ↔ AllHealthy entries
unfolding worst
worst_iff [] = (λ h. tt, λ h. refl)
worst_iff (e ∷ rest) =
    let (to, from) = worst_iff rest in
    elim (healthy_cases e.status) [
      | inl (t, s, z) ↦ rw z (λ h. (s, to (ground arith)), λ (q, h). let w = from h in ground arith)
      | inr (f, n, z) ↦ (λ h. absurd (ground arith), λ (q, h). absurd (n q))
    ]

-- Where there are probes, the line is that of the worst status; the worst is that of a healthy probe
-- exactly if all are healthy, and that is exactly if as many are counted healthy as there are probes.
pub rollup_health-worst :
    (e : ServiceHealthEntry) (rest : List ServiceHealthEntry)
    → ((rollup_health (e ∷ rest)).label ≡ label_of (worst (e ∷ rest)))
      × ((worst (e ∷ rest) ≡ 0) ↔ All (λ p. p.status ≡ healthy) (e ∷ rest))
      × (((rollup_health (e ∷ rest)).healthy_count ≡ length (e ∷ rest))
          ↔ All (λ p. p.status ≡ healthy) (e ∷ rest))
unfolding rollup_health label_among
rollup_health-worst e rest = (
  label_graded (any (λ x. is_down x.status) (e ∷ rest)) (any (λ x. is_degraded x.status) (e ∷ rest))
        (any (λ x. is_unexercised x.status) (e ∷ rest))
      ∙ ap label_of (sym (worst-graded (e ∷ rest))),
  worst_iff (e ∷ rest),
  count_iff (e ∷ rest),
)
