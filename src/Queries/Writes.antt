-- ===== src/Queries/Writes.antt =====
-- frontend/lib/queries.ts: the hooks that write, and the keys that each marks as out of date. A key is
-- compared with the keys of the cache by the library.
use fintech_innova_hack.Prelude.{Bool, true, Option, none, some, List, [], ◌∷◌, any}
use fintech_innova_hack.Prelude.Text.{Text, codes}
use fintech_innova_hack.Types.Policy.{ScenarioName}
use fintech_innova_hack.Queries.{Query, Part, key_of}

pub data Mutation : Type 0 where
  review_application freeze_vault close_vault receive_revenue simulate_failure : Text → Mutation
  run_scenario : ScenarioName → Mutation
  invalidate_workspace : Mutation

-- The keys of a write; `none` where the whole cache is dropped.
unfoldable pub areas : Mutation → Option (List (List Text))
areas (review_application id) = some (
    (codes "credit-applications" ∷ [])
    ∷ (codes "credit-applications" ∷ id ∷ codes "underwriting" ∷ [])
    ∷ (codes "underwriting" ∷ codes "queue" ∷ [])
    ∷ (codes "vaults" ∷ [])
    ∷ (codes "audit" ∷ codes "events" ∷ [])
    ∷ (codes "audit" ∷ codes "chain" ∷ [])
    ∷ (codes "dashboard" ∷ codes "summary" ∷ [])
    ∷ (codes "dashboard" ∷ [])
    ∷ (codes "risk" ∷ codes "summary" ∷ [])
    ∷ [])
areas (freeze_vault id) = some (
    (codes "vaults" ∷ id ∷ [])
    ∷ (codes "vaults" ∷ [])
    ∷ (codes "risk" ∷ codes "events" ∷ [])
    ∷ (codes "risk" ∷ codes "summary" ∷ [])
    ∷ (codes "audit" ∷ codes "events" ∷ [])
    ∷ (codes "audit" ∷ codes "chain" ∷ [])
    ∷ (codes "dashboard" ∷ [])
    ∷ [])
areas (close_vault id) = some (
    (codes "vaults" ∷ id ∷ [])
    ∷ (codes "vaults" ∷ [])
    ∷ (codes "repayments" ∷ [])
    ∷ (codes "audit" ∷ codes "events" ∷ [])
    ∷ (codes "audit" ∷ codes "chain" ∷ [])
    ∷ (codes "dashboard" ∷ [])
    ∷ [])
areas (receive_revenue id) = some (
    (codes "vaults" ∷ [])
    ∷ (codes "vaults" ∷ id ∷ [])
    ∷ (codes "repayments" ∷ [])
    ∷ (codes "dashboard" ∷ codes "summary" ∷ [])
    ∷ (codes "risk" ∷ codes "summary" ∷ [])
    ∷ (codes "audit" ∷ codes "events" ∷ [])
    ∷ (codes "audit" ∷ codes "chain" ∷ [])
    ∷ [])
areas (simulate_failure id) = some (
    (codes "vaults" ∷ [])
    ∷ (codes "vaults" ∷ id ∷ [])
    ∷ (codes "repayments" ∷ [])
    ∷ (codes "dashboard" ∷ codes "summary" ∷ [])
    ∷ (codes "risk" ∷ codes "summary" ∷ [])
    ∷ (codes "audit" ∷ codes "events" ∷ [])
    ∷ (codes "audit" ∷ codes "chain" ∷ [])
    ∷ [])
areas (run_scenario name) = none
areas invalidate_workspace = none

-- The library's test whether a key is one of a filter's.
abbrev pub Matches : Type 0
Matches = List Text → List Part → Bool

unfoldable pub in_areas : Matches → Option (List (List Text)) → List Part → Bool
in_areas matches none key = true
in_areas matches (some keys) key = any (λ filter. matches filter key) keys

-- A write marks this query's entry as out of date.
unfoldable pub invalidates : Matches → Mutation → Query → Bool
unfolding in_areas areas key_of
invalidates matches m q = in_areas matches (areas m) (key_of q)
