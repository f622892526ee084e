-- ===== src/Pages/Examples/Telemetry.antt =====
-- The chain, the probes, the rail, the bar and the inspector.

use fintech_innova_hack.Prelude.{
  suc, ◌≡◌, refl, ◌↔◌, true, none, some, List, [], ◌∷◌, map, All, arith,
}
use fintech_innova_hack.Prelude.Text.{Text, codes}
use fintech_innova_hack.Prelude.Int.{pos}
use fintech_innova_hack.Json.{null}
use fintech_innova_hack.Types.Events.{AuditEvent}
use fintech_innova_hack.Types.Intelligence.{
  ServiceHealthEntry, ServiceHealthStatus, database, healthy, idle,
}
use fintech_innova_hack.Types.Metrics.{PipelineStage, pipeline_stage_order, policy_engine}
use fintech_innova_hack.Client.{Browser}
use fintech_innova_hack.Client.Endpoints.{get_readiness, read}
use fintech_innova_hack.Pages.Audit.{links, NoMismatch, IsChain, links-IsChain}
use fintech_innova_hack.Pages.Health.{rollup_health, worst, label_of, rollup_health-worst}
use fintech_innova_hack.Pages.Pipeline.{missing_stage, order_stages, Stands, order_stages-Stands}
use fintech_innova_hack.Pages.Meter.{Bar, meter, IsDrawn, meter_bounds}
use fintech_innova_hack.Pages.Console.{
  idle_inspector, begin_fetch, end_fetch, inspectable, unused, next, press, deliver, IsSound,
  Inspected-IsSound,
}

abbrev event : Text → Text → AuditEvent
event hash before = record {
  id = hash;
  seq = pos 1;
  actor_type = codes "SYSTEM";
  event_type = codes "VAULT_CREATED";
  resource_id = none;
  event_hash = hash;
  prev_hash = before;
  created_at = codes "2026-07-01T00:00:00Z";
}

abbrev chain : List AuditEvent
chain =
    event (codes "c3") (codes "b2") ∷ event (codes "b2") (codes "a1") ∷ event (codes "a1") [] ∷ []

drawn : links chain ≡ some true ∷ some true ∷ none ∷ []
unfolding links
drawn = refl

links-IsChain_example : NoMismatch (links chain) ↔ IsChain chain
links-IsChain_example = links-IsChain chain

abbrev probe : ServiceHealthStatus → ServiceHealthEntry
probe s = record {
  component = database;
  status = s;
  detail = none;
  checked_at = codes "2026-07-01T00:00:00Z";
}

rollup_health-worst_example :
    ((rollup_health (probe healthy ∷ probe idle ∷ [])).label
      ≡ label_of (worst (probe healthy ∷ probe idle ∷ [])))
    × ((worst (probe healthy ∷ probe idle ∷ []) ≡ 0)
        ↔ All (λ p. p.status ≡ healthy) (probe healthy ∷ probe idle ∷ []))
    × (((rollup_health (probe healthy ∷ probe idle ∷ [])).healthy_count ≡ 2)
        ↔ All (λ p. p.status ≡ healthy) (probe healthy ∷ probe idle ∷ []))
rollup_health-worst_example = rollup_health-worst (probe healthy) (probe idle ∷ [])

idle_is_partial :
    (rollup_health (probe healthy ∷ probe idle ∷ [])).label ≡ codes "Partial telemetry"
unfolding rollup_health
idle_is_partial = refl

abbrev reported : PipelineStage
reported = record (missing_stage policy_engine) { label = codes "Policy" }

order_stages-Stands_example :
    (map (λ s. s.stage) (order_stages (reported ∷ [])) ≡ pipeline_stage_order)
    × All (Stands (reported ∷ [])) (order_stages (reported ∷ []))
order_stages-Stands_example = order_stages-Stands (reported ∷ [])

-- 29 of 200 is less than 14.5 in doubles.
abbrev part : Bar
part = record { width = (8162774324609023, 562949953421312); value_now = 14 }

part_drawn : meter (some (pos 29)) (some (pos 200)) ≡ some part
unfolding meter
part_drawn = refl

meter_bounds_example : IsDrawn 29 (suc 199) (8162774324609023, 562949953421312) 14
meter_bounds_example = meter_bounds 29 199 part (omega arith) (omega arith) (omega arith) part_drawn

no_bar : meter (some (pos 250)) (some (pos 0)) ≡ none
unfolding meter
no_bar = refl

abbrev offline_browser : Browser
offline_browser = record {
  fetch = λ call. none;
  parse_json = λ text. some null;
  print_pairs = λ pairs. [];
}

Inspected-IsSound_example : IsSound offline_browser (
    end_fetch
      (read offline_browser get_readiness)
      (begin_fetch (codes "Readiness", get_readiness) idle_inspector))
unfolding inspectable begin_fetch
Inspected-IsSound_example =
    Inspected-IsSound offline_browser
      (end_fetch (read offline_browser get_readiness)
        (begin_fetch (codes "Readiness", get_readiness) idle_inspector))
      (next (next unused (press idle_inspector (codes "Readiness", get_readiness) refl refl)) (
        deliver (begin_fetch (codes "Readiness", get_readiness) idle_inspector) get_readiness refl))
