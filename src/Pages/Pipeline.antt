-- ===== src/Pages/Pipeline.antt =====
-- frontend/components/system-intelligence/pipeline.tsx: `orderStages`. The map from names to stages is
-- an association list, in which a later stage of a name takes the place of an earlier one.
use mathlib.Core.Path.{subst}
use mathlib.Core.Logic.{ite, if_pos, if_neg}
use fintech_innova_hack.Prelude.{
  ◌≡◌, refl, sym, ap, ◌∙◌, ◌≢◌, ◌⊎◌, inl, inr, Option, none, some, List, [], ◌∷◌, ◌++◌, map, All,
  arith,
}
use fintech_innova_hack.Format.Labels.{humanise}
use fintech_innova_hack.Types.Metrics.{
  MetricEnvelope, count, ms, not_connected, PipelineStage, PipelineStageName, pipeline_stage_order,
  PipelineStageStatus, stage_text,
}

pub PipelineStageName-discrete : Discrete PipelineStageName
PipelineStageName-discrete = hlevel

abbrev no_telemetry : MetricEnvelope
no_telemetry = record { value = none; unit = count; sample_size = none; status = not_connected }

abbrev no_telemetry_ms : MetricEnvelope
no_telemetry_ms = record no_telemetry { unit = ms }

unfoldable pub missing_stage : PipelineStageName → PipelineStage
unfolding humanise stage_text
missing_stage name = record {
  stage = name;
  label = humanise (some (stage_text name));
  status = PipelineStageStatus.unavailable;
  processed = no_telemetry;
  succeeded = no_telemetry;
  controlled_rejections = no_telemetry;
  true_errors = no_telemetry;
  p50_ms = no_telemetry_ms;
  p95_ms = no_telemetry_ms;
  last_completed_at = none;
}

abbrev Entries : Type 0
Entries = List (PipelineStageName × PipelineStage)

-- `map.set(name, stage)`
set_entry : PipelineStageName → PipelineStage → Entries → Entries
set_entry name s [] = (name, s) ∷ []
set_entry name s ((k, t) ∷ es) =
    ite (PipelineStageName-discrete k name) ((k, s) ∷ es) ((k, t) ∷ set_entry name s es)

-- `map.get(name)`
get_entry : PipelineStageName → Entries → Option PipelineStage
get_entry name [] = none
get_entry name ((k, t) ∷ es) = ite (PipelineStageName-discrete k name) (some t) (get_entry name es)

-- `new Map(pairs)`, after what is in it
entries_from : Entries → List PipelineStage → Entries
unfolding set_entry
entries_from es [] = es
entries_from es (s ∷ stages) = entries_from (set_entry s.stage s es) stages

stage_or_missing : PipelineStageName → Option PipelineStage → PipelineStage
unfolding missing_stage
stage_or_missing name none = missing_stage name
stage_or_missing name (some s) = s

unfoldable pub order_stages : List PipelineStage → List PipelineStage
unfolding entries_from get_entry stage_or_missing
order_stages pipeline =
    let by_name = entries_from [] pipeline in
    map (λ name. stage_or_missing name (get_entry name by_name)) pipeline_stage_order

-- The stage is the last of its name that was reported.
abbrev pub IsReported : PipelineStageName → List PipelineStage → PipelineStage → Type 0
IsReported name ps s =
    (u : List PipelineStage) × (v : List PipelineStage) × (ps ≡ u ++ s ∷ v)
    × (s.stage ≡ name)
    × All (λ q. q.stage ≢ name) v

abbrev Found :
    PipelineStageName → List PipelineStage → (prior result : Option PipelineStage) → Type 0
Found name ps prior result =
    ((s : PipelineStage) × IsReported name ps s × (result ≡ some s))
    ⊎ (All (λ q. q.stage ≢ name) ps × (result ≡ prior))

get_entry-set_entry :
    (name key : PipelineStageName) (s : PipelineStage) (es : Entries)
    → get_entry name (set_entry key s es)
      ≡ ite (PipelineStageName-discrete key name) (some s) (get_entry name es)
unfolding get_entry set_entry
get_entry-set_entry name key s [] = refl
get_entry-set_entry name key s ((k, t) ∷ es) = ground (arith, get_entry-set_entry name key s es)

entries_from-Found :
    (name : PipelineStageName) (es : Entries) (ps : List PipelineStage)
    → Found name ps (get_entry name es) (get_entry name (entries_from es ps))
unfolding entries_from
entries_from-Found name es [] = inr (tt, refl)
entries_from-Found name es (s ∷ ps) = elim (entries_from-Found name (set_entry s.stage s es) ps) [
  | inl (t, (u, v, e, n, l), r) ↦ inl (t, (s ∷ u, v, ap (λ x. s ∷ x) e, n, l), r)
  | inr (l, r) ↦ elim (PipelineStageName-discrete s.stage name) [
    | yes p ↦ inl (
      s,
      ([], ps, refl, p, l),
      r
          ∙ get_entry-set_entry name s.stage s es
          ∙ if_pos (PipelineStageName-discrete s.stage name) p (some s) (get_entry name es),
    )
    | no p ↦ inr (
      (p, l),
      r
          ∙ get_entry-set_entry name s.stage s es
          ∙ if_neg (PipelineStageName-discrete s.stage name) p (some s) (get_entry name es),
    )
  ]
]

-- What stands in the place of a name.
abbrev pub Stands : List PipelineStage → PipelineStage → Type 0
Stands ps s =
    IsReported s.stage ps s ⊎ (All (λ q. q.stage ≢ s.stage) ps × (s ≡ missing_stage s.stage))

stage_or_missing-Stands :
    (name : PipelineStageName) (ps : List PipelineStage) (o : Option PipelineStage)
    → Found name ps none o
    → ((stage_or_missing name o).stage ≡ name) × Stands ps (stage_or_missing name o)
unfolding stage_or_missing missing_stage
stage_or_missing-Stands name ps o (inl (s, (u, v, e, n, l), r)) =
    rw r (n, inl (u, v, e, refl, subst (λ x. All (λ q. q.stage ≢ x) v) (sym n) l))
stage_or_missing-Stands name ps o (inr (l, r)) = rw r (refl, inr (l, refl))

module _ (ps : List PipelineStage) where
  placed : PipelineStageName → PipelineStage
  placed name = stage_or_missing name (get_entry name (entries_from [] ps))

  placed-Stands :
      (name : PipelineStageName) → ((placed name).stage ≡ name) × Stands ps (placed name)
  unfolding placed get_entry
  placed-Stands name = stage_or_missing-Stands name ps _ (entries_from-Found name [] ps)

  names_placed : (names : List PipelineStageName) → map (λ s. s.stage) (map placed names) ≡ names
  names_placed [] = refl
  names_placed (n ∷ names) = rw ((placed-Stands n).0) (ap (λ ns. n ∷ ns) (names_placed names))

  all_placed : (names : List PipelineStageName) → All (Stands ps) (map placed names)
  all_placed [] = tt
  all_placed (n ∷ names) = ((placed-Stands n).1, all_placed names)

-- Whatever stages the API reports, and in whatever order, the rail has the sixteen stages in the order of
-- the contract; each is the last of its name that was reported, or, if none of its name was, the
-- stage that claims no figure.
pub order_stages-Stands :
    (ps : List PipelineStage)
    → (map (λ s. s.stage) (order_stages ps) ≡ pipeline_stage_order)
      × All (Stands ps) (order_stages ps)
unfolding order_stages placed
order_stages-Stands ps = (names_placed ps pipeline_stage_order, all_placed ps pipeline_stage_order)
